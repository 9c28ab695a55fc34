-- ===== src/Config/Examples.antt =====
-- Environments and keys.
use quant_indonesia_scraping.Prelude.{
  ◌≡◌, refl, false, some, [], ◌∷◌, codes, pos, negsuc, trim_space, trim_left, trim_right,
  trim_right_cons, is_space,
}
use quant_indonesia_scraping.Config.{
  get_env, get_env_int, atoi, positive_int, negative_int, digits_value, is_digit, split, prepend,
  keep_keys, api_keys,
}
use quant_indonesia_scraping.Config.Keys.{IsKey, has_code}

port : get_env (λ key. some []) (codes "SERVER_PORT") (codes "8080") ≡ []
unfolding get_env
port = refl

below_zero : get_env_int (λ key. some (codes "-12")) (codes "VALKEY_DB") (pos 0) ≡ negsuc 11
unfolding get_env_int atoi negative_int digits_value is_digit
below_zero = refl

no_number : get_env_int (λ key. some (codes "ten")) (codes "RATE_LIMIT_RPS") (pos 10) ≡ pos 10
unfolding get_env_int atoi positive_int digits_value is_digit
no_number = refl

two_keys : api_keys (codes " k1,, k2") ≡ codes "k1" ∷ codes "k2" ∷ []
unfolding api_keys split prepend keep_keys trim_space trim_left trim_right trim_right_cons is_space
two_keys = refl

k1-IsKey : IsKey (codes "k1")
unfolding trim_space trim_left trim_right trim_right_cons is_space
k1-IsKey = record { trimmed = refl; filled = refl }

k1_plain : has_code b',' (codes "k1") ≡ false
unfolding has_code
k1_plain = refl
