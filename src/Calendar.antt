-- ===== src/Calendar.antt =====
-- Dates of package time: the UTC date of a Unix time, in the layout "2006-01-02". Years before 0 do
-- not occur: a time before then is taken as the first day of March of the year 0.
use quant_indonesia_scraping.Prelude.{
  ℕ, ◌+◌, ◌-◌, ◌*◌, ◌/◌, ◌%◌, ◌≡◌, refl, ◌++◌, [], ◌∷◌, Text, codes, ltb, leb, itoa, if◌then◌else◌,
  ℤ, pos, negsuc, pos_part, neg_part,
}

-- Days since the first of March of the year 0; 719468 of them lie before 1970.
unfoldable pub shifted_days : ℤ → ℕ
shifted_days secs = (pos_part secs + 719_468 * 86_400 - neg_part secs) / 86_400

-- Of the years that start in March: the year within its 400 years, and the day within the year.
unfoldable pub year_of_era : ℕ → ℕ
year_of_era doe = (doe - doe / 1460 + doe / 36_524 - doe / 146_096) / 365

pub record CivilDate : Type 0 where
  pub year : ℕ
  pub month : ℕ
  pub day : ℕ

unfoldable pub civil_date : ℕ → CivilDate
unfolding year_of_era
civil_date z =
    let yoe = year_of_era (z % 146_097) in
    let doy = z % 146_097 - (365 * yoe + yoe / 4 - yoe / 100) in
    let mp = (5 * doy + 2) / 153 in
    let month = if ltb mp 10 then mp + 3 else mp - 9 in
    record {
      year = yoe + 400 * (z / 146_097) + (if leb month 2 then 1 else 0);
      month = month;
      day = doy - (153 * mp + 2) / 5 + 1;
    }

-- The verbs of the layout: at least two or four digits.
unfoldable pub two_digits : ℕ → Text
two_digits n = (b'0' + n / 10) ∷ (b'0' + n % 10) ∷ []

unfoldable pub four_digits : ℕ → Text
unfolding two_digits
four_digits n = if ltb n 10_000 then two_digits (n / 100) ++ two_digits (n % 100) else itoa n

unfoldable pub format_date : CivilDate → Text
unfolding two_digits four_digits
format_date d =
    four_digits d.year ++ codes "-" ++ two_digits d.month ++ codes "-" ++ two_digits d.day

-- time.Unix(secs, 0).UTC().Format("2006-01-02")
unfoldable pub unix_date : ℤ → Text
unfolding shifted_days civil_date format_date
unix_date secs = format_date (civil_date (shifted_days secs))

leap_day : unix_date (pos 1_709_251_199) ≡ codes "2024-02-29"
unfolding unix_date shifted_days civil_date year_of_era format_date four_digits two_digits
leap_day = refl

before_epoch : unix_date (negsuc 0) ≡ codes "1969-12-31"
unfolding unix_date shifted_days civil_date year_of_era format_date four_digits two_digits
before_epoch = refl
