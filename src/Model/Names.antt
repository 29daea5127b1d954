-- ===== src/Model/Names.antt =====
-- The constants of src/model.rs: the known models and the efforts.
use codex_proxy_rs.Base.{List, [], ◌∷◌, Str, codes}

abbrev pub gpt5 : Str
gpt5 = codes "gpt-5"

abbrev pub gpt5_codex : Str
gpt5_codex = codes "gpt-5-codex"

abbrev pub gpt5_1 : Str
gpt5_1 = codes "gpt-5.1"

abbrev pub gpt5_1_codex : Str
gpt5_1_codex = codes "gpt-5.1-codex"

abbrev pub gpt5_1_codex_max : Str
gpt5_1_codex_max = codes "gpt-5.1-codex-max"

abbrev pub gpt5_2 : Str
gpt5_2 = codes "gpt-5.2"

abbrev pub gpt5_4 : Str
gpt5_4 = codes "gpt-5.4"

abbrev pub gpt5_2_codex : Str
gpt5_2_codex = codes "gpt-5.2-codex"

abbrev pub gpt5_3_codex : Str
gpt5_3_codex = codes "gpt-5.3-codex"

abbrev pub gpt5_3_codex_spark : Str
gpt5_3_codex_spark = codes "gpt-5.3-codex-spark"

abbrev pub gpt5_5 : Str
gpt5_5 = codes "gpt-5.5"

abbrev pub gpt5_6_sol : Str
gpt5_6_sol = codes "gpt-5.6-sol"

abbrev pub gpt5_6_terra : Str
gpt5_6_terra = codes "gpt-5.6-terra"

abbrev pub gpt5_6_luna : Str
gpt5_6_luna = codes "gpt-5.6-luna"

abbrev pub gpt6_astra : Str
gpt6_astra = codes "gpt-6-astra"

abbrev pub gpt5_codex_mini : Str
gpt5_codex_mini = codes "gpt-5-codex-mini"

abbrev pub gpt5_1_codex_mini : Str
gpt5_1_codex_mini = codes "gpt-5.1-codex-mini"

abbrev pub gpt5_4_mini : Str
gpt5_4_mini = codes "gpt-5.4-mini"

abbrev pub effort_suffixes : List Str
effort_suffixes =
    codes "-ultra"
    ∷ codes "-xhigh"
    ∷ codes "-high"
    ∷ codes "-medium"
    ∷ codes "-low"
    ∷ codes "-minimal"
    ∷ codes "-max"
    ∷ []

abbrev pub known_models : List Str
known_models =
    gpt6_astra ∷ gpt5_6_sol ∷ gpt5_6_terra ∷ gpt5_6_luna ∷ gpt5_5 ∷ gpt5_4 ∷ gpt5_4_mini
    ∷ gpt5_3_codex_spark ∷ gpt5_3_codex ∷ gpt5_2_codex ∷ gpt5_2 ∷ gpt5_1_codex_max
    ∷ gpt5_1_codex_mini ∷ gpt5_1_codex ∷ gpt5_1 ∷ gpt5_codex_mini ∷ gpt5_codex ∷ gpt5 ∷ []

-- The efforts by name.
abbrev pub minimal : Str
minimal = codes "minimal"

abbrev pub low : Str
low = codes "low"

abbrev pub medium : Str
medium = codes "medium"

abbrev pub high : Str
high = codes "high"

abbrev pub xhigh : Str
xhigh = codes "xhigh"

abbrev pub max_effort : Str
max_effort = codes "max"

abbrev pub ultra : Str
ultra = codes "ultra"

abbrev pub to_high : List Str
to_high = low ∷ medium ∷ high ∷ []

abbrev pub to_xhigh : List Str
to_xhigh = low ∷ medium ∷ high ∷ xhigh ∷ []
