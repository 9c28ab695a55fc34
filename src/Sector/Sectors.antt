-- ===== src/Sector/Sectors.antt =====
-- OfficialIDXMap of pkg/sector/sector.go: the official IDX sector of each ticker symbol.
use quant_indonesia_scraping.Prelude.{List, [], ◌∷◌, String}

unfoldable pub official_idx_map : List (String × String)
official_idx_map =
    ("AADI", "Energy")
    ∷ ("ADMR", "Energy")
    ∷ ("ADRO", "Energy")
    ∷ ("AKRA", "Energy")
    ∷ ("BREN", "Energy")
    ∷ ("BUMI", "Energy")
    ∷ ("CBRE", "Energy")
    ∷ ("COAL", "Energy")
    ∷ ("CUAN", "Energy")
    ∷ ("DSSA", "Energy")
    ∷ ("DWGL", "Energy")
    ∷ ("ELSA", "Energy")
    ∷ ("ENRG", "Energy")
    ∷ ("ITMG", "Energy")
    ∷ ("MEDC", "Energy")
    ∷ ("PGAS", "Energy")
    ∷ ("PGEO", "Energy")
    ∷ ("PTBA", "Energy")
    ∷ ("PTRO", "Energy")
    ∷ ("RAJA", "Energy")
    ∷ ("RATU", "Energy")
    ∷ ("SINI", "Energy")
    ∷ ("SULI", "Basic Materials")
    ∷ ("TCPI", "Infrastructure")
    ∷ ("AMMN", "Basic Materials")
    ∷ ("ANTM", "Basic Materials")
    ∷ ("ARCI", "Basic Materials")
    ∷ ("AVIA", "Basic Materials")
    ∷ ("BAJA", "Basic Materials")
    ∷ ("BRMS", "Basic Materials")
    ∷ ("BRNA", "Basic Materials")
    ∷ ("BRPT", "Basic Materials")
    ∷ ("EKAD", "Basic Materials")
    ∷ ("EMAS", "Basic Materials")
    ∷ ("ESSA", "Basic Materials")
    ∷ ("IFSH", "Basic Materials")
    ∷ ("IMPC", "Basic Materials")
    ∷ ("INCF", "Basic Materials")
    ∷ ("INCO", "Basic Materials")
    ∷ ("INKP", "Basic Materials")
    ∷ ("KRAS", "Basic Materials")
    ∷ ("MBMA", "Basic Materials")
    ∷ ("MDKA", "Basic Materials")
    ∷ ("PSAB", "Basic Materials")
    ∷ ("SMGR", "Basic Materials")
    ∷ ("TINS", "Basic Materials")
    ∷ ("TPIA", "Basic Materials")
    ∷ ("TPL", "Basic Materials")
    ∷ ("WTON", "Basic Materials")
    ∷ ("YPAS", "Basic Materials")
    ∷ ("ADMF", "Financial Services")
    ∷ ("AHAP", "Financial Services")
    ∷ ("ARTO", "Financial Services")
    ∷ ("BANK", "Financial Services")
    ∷ ("BBCA", "Financial Services")
    ∷ ("BBHI", "Financial Services")
    ∷ ("BBNI", "Financial Services")
    ∷ ("BBRI", "Financial Services")
    ∷ ("BBSI", "Financial Services")
    ∷ ("BBTN", "Financial Services")
    ∷ ("BEKS", "Financial Services")
    ∷ ("BFIN", "Financial Services")
    ∷ ("BJBR", "Financial Services")
    ∷ ("BJTM", "Financial Services")
    ∷ ("BMAS", "Financial Services")
    ∷ ("BMRI", "Financial Services")
    ∷ ("BNGA", "Financial Services")
    ∷ ("BNII", "Financial Services")
    ∷ ("BRIS", "Financial Services")
    ∷ ("MEGA", "Financial Services")
    ∷ ("SMMA", "Financial Services")
    ∷ ("STAR", "Financial Services")
    ∷ ("TRIM", "Financial Services")
    ∷ ("TUGU", "Financial Services")
    ∷ ("WOMF", "Financial Services")
    ∷ ("AMRT", "Consumer Goods")
    ∷ ("BACH", "Consumer Goods")
    ∷ ("BAIK", "Consumer Goods")
    ∷ ("BUDI", "Consumer Goods")
    ∷ ("CMRY", "Consumer Goods")
    ∷ ("CPIN", "Consumer Goods")
    ∷ ("CSMI", "Consumer Goods")
    ∷ ("FAST", "Consumer Goods")
    ∷ ("GGRM", "Consumer Goods")
    ∷ ("GULA", "Consumer Goods")
    ∷ ("HERO", "Consumer Goods")
    ∷ ("HMSP", "Consumer Goods")
    ∷ ("ICBP", "Consumer Goods")
    ∷ ("INDF", "Consumer Goods")
    ∷ ("JPFA", "Consumer Goods")
    ∷ ("LSIP", "Consumer Goods")
    ∷ ("MYOR", "Consumer Goods")
    ∷ ("RLCO", "Consumer Goods")
    ∷ ("SIMP", "Consumer Goods")
    ∷ ("TAPG", "Consumer Goods")
    ∷ ("TGUK", "Consumer Goods")
    ∷ ("UNSP", "Consumer Goods")
    ∷ ("UNVR", "Consumer Goods")
    ∷ ("ASII", "Consumer Cyclicals")
    ∷ ("AUTO", "Consumer Cyclicals")
    ∷ ("EAST", "Consumer Cyclicals")
    ∷ ("FILM", "Consumer Cyclicals")
    ∷ ("HRTA", "Consumer Cyclicals")
    ∷ ("LPPF", "Consumer Cyclicals")
    ∷ ("MAPI", "Consumer Cyclicals")
    ∷ ("TMPO", "Consumer Cyclicals")
    ∷ ("VKTR", "Consumer Cyclicals")
    ∷ ("ADHI", "Infrastructure")
    ∷ ("DCII", "Infrastructure")
    ∷ ("EXCL", "Infrastructure")
    ∷ ("GIAA", "Infrastructure")
    ∷ ("ISAT", "Infrastructure")
    ∷ ("JSMR", "Infrastructure")
    ∷ ("KJEN", "Infrastructure")
    ∷ ("MBSS", "Infrastructure")
    ∷ ("SMDR", "Infrastructure")
    ∷ ("TLKM", "Infrastructure")
    ∷ ("TOWR", "Infrastructure")
    ∷ ("TRUK", "Infrastructure")
    ∷ ("WIKA", "Infrastructure")
    ∷ ("WSKT", "Infrastructure")
    ∷ ("BELI", "Technology")
    ∷ ("BUKA", "Technology")
    ∷ ("EMTK", "Technology")
    ∷ ("GOTO", "Technology")
    ∷ ("HEAL", "Healthcare")
    ∷ ("KAEF", "Healthcare")
    ∷ ("KLBF", "Healthcare")
    ∷ ("LABS", "Healthcare")
    ∷ ("SIDO", "Healthcare")
    ∷ ("ADCP", "Real Estate")
    ∷ ("BSDE", "Real Estate")
    ∷ ("CTRA", "Real Estate")
    ∷ ("DART", "Real Estate")
    ∷ ("INPP", "Real Estate")
    ∷ ("KOTA", "Real Estate")
    ∷ ("KPIG", "Real Estate")
    ∷ ("SMRA", "Real Estate")
    ∷ ("SSIA", "Real Estate")
    ∷ ("WINR", "Real Estate")
    ∷ ("BNBR", "Industrials")
    ∷ ("UNTR", "Industrials")
    ∷ []
