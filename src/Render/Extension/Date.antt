-- ===== src/Render/Extension/Date.antt =====
-- crates/shinran_render/src/extension/date.rs: the date as a variable. The clock, the arithmetic of
-- dates and their formats are parameters. A `Locale` is the text that names it in the table, of which
-- the constant of `chrono` has `_` for `-`.
use shinran.Prelude.{
  Text, codes, String, Option, none, some, List, [], ◌∷◌, ◌++◌, any, literal, unwrap_or,
  if◌then◌else◌,
}
use shinran.Types.{Number, integer, negative, Value, number, string, Params}
use shinran.Types.Params.{get}
use shinran.Render.{single, ExtensionResult}

abbrev pub locales_aa_to_hy : List String
locales_aa_to_hy =
    "aa-DJ" ∷ "aa-ER" ∷ "aa-ET" ∷ "af-ZA" ∷ "agr-PE" ∷ "ak-GH" ∷ "am-ET" ∷ "an-ES" ∷ "anp-IN"
    ∷ "ar-AE" ∷ "ar-BH" ∷ "ar-DZ" ∷ "ar-EG" ∷ "ar-IN" ∷ "ar-IQ" ∷ "ar-JO" ∷ "ar-KW" ∷ "ar-LB"
    ∷ "ar-LY" ∷ "ar-MA" ∷ "ar-OM" ∷ "ar-QA" ∷ "ar-SA" ∷ "ar-SD" ∷ "ar-SS" ∷ "ar-SY" ∷ "ar-TN"
    ∷ "ar-YE" ∷ "as-IN" ∷ "ast-ES" ∷ "ayc-PE" ∷ "az-AZ" ∷ "az-IR" ∷ "be-BY" ∷ "bem-ZM" ∷ "ber-DZ"
    ∷ "ber-MA" ∷ "bg-BG" ∷ "bhb-IN" ∷ "bho-IN" ∷ "bho-NP" ∷ "bi-VU" ∷ "bn-BD" ∷ "bn-IN" ∷ "bo-CN"
    ∷ "bo-IN" ∷ "br-FR" ∷ "brx-IN" ∷ "bs-BA" ∷ "byn-ER" ∷ "ca-AD" ∷ "ca-ES" ∷ "ca-FR" ∷ "ca-IT"
    ∷ "ce-RU" ∷ "chr-US" ∷ "cmn-TW" ∷ "crh-UA" ∷ "cs-CZ" ∷ "csb-PL" ∷ "cv-RU" ∷ "cy-GB" ∷ "da-DK"
    ∷ "de-AT" ∷ "de-BE" ∷ "de-CH" ∷ "de-DE" ∷ "de-IT" ∷ "de-LI" ∷ "de-LU" ∷ "doi-IN" ∷ "dsb-DE"
    ∷ "dv-MV" ∷ "dz-BT" ∷ "el-CY" ∷ "el-GR" ∷ "en-AG" ∷ "en-AU" ∷ "en-BW" ∷ "en-CA" ∷ "en-DK"
    ∷ "en-GB" ∷ "en-HK" ∷ "en-IE" ∷ "en-IL" ∷ "en-IN" ∷ "en-NG" ∷ "en-NZ" ∷ "en-PH" ∷ "en-SC"
    ∷ "en-SG" ∷ "en-US" ∷ "en-ZA" ∷ "en-ZM" ∷ "en-ZW" ∷ "eo" ∷ "es-AR" ∷ "es-BO" ∷ "es-CL" ∷ "es-CO"
    ∷ "es-CR" ∷ "es-CU" ∷ "es-DO" ∷ "es-EC" ∷ "es-ES" ∷ "es-GT" ∷ "es-HN" ∷ "es-MX" ∷ "es-NI"
    ∷ "es-PA" ∷ "es-PE" ∷ "es-PR" ∷ "es-PY" ∷ "es-SV" ∷ "es-US" ∷ "es-UY" ∷ "es-VE" ∷ "et-EE"
    ∷ "eu-ES" ∷ "fa-IR" ∷ "ff-SN" ∷ "fi-FI" ∷ "fil-PH" ∷ "fo-FO" ∷ "fr-BE" ∷ "fr-CA" ∷ "fr-CH"
    ∷ "fr-FR" ∷ "fr-LU" ∷ "fur-IT" ∷ "fy-DE" ∷ "fy-NL" ∷ "ga-IE" ∷ "gd-GB" ∷ "gez-ER" ∷ "gez-ET"
    ∷ "gl-ES" ∷ "gu-IN" ∷ "gv-GB" ∷ "ha-NG" ∷ "hak-TW" ∷ "he-IL" ∷ "hi-IN" ∷ "hif-FJ" ∷ "hne-IN"
    ∷ "hr-HR" ∷ "hsb-DE" ∷ "ht-HT" ∷ "hu-HU" ∷ "hy-AM" ∷ []

abbrev pub locales_ia_to_zh : List String
locales_ia_to_zh =
    "ia-FR" ∷ "id-ID" ∷ "ig-NG" ∷ "ik-CA" ∷ "is-IS" ∷ "it-CH" ∷ "it-IT" ∷ "iu-CA" ∷ "ja-JP"
    ∷ "ka-GE" ∷ "kab-DZ" ∷ "kk-KZ" ∷ "kl-GL" ∷ "km-KH" ∷ "kn-IN" ∷ "ko-KR" ∷ "kok-IN" ∷ "ks-IN"
    ∷ "ku-TR" ∷ "kw-GB" ∷ "ky-KG" ∷ "lb-LU" ∷ "lg-UG" ∷ "li-BE" ∷ "li-NL" ∷ "lij-IT" ∷ "ln-CD"
    ∷ "lo-LA" ∷ "lt-LT" ∷ "lv-LV" ∷ "lzh-TW" ∷ "mag-IN" ∷ "mai-IN" ∷ "mai-NP" ∷ "mfe-MU" ∷ "mg-MG"
    ∷ "mhr-RU" ∷ "mi-NZ" ∷ "miq-NI" ∷ "mjw-IN" ∷ "mk-MK" ∷ "ml-IN" ∷ "mn-MN" ∷ "mni-IN" ∷ "mnw-MM"
    ∷ "mr-IN" ∷ "ms-MY" ∷ "mt-MT" ∷ "my-MM" ∷ "nan-TW" ∷ "nb-NO" ∷ "nds-DE" ∷ "nds-NL" ∷ "ne-NP"
    ∷ "nhn-MX" ∷ "niu-NU" ∷ "niu-NZ" ∷ "nl-AW" ∷ "nl-BE" ∷ "nl-NL" ∷ "nn-NO" ∷ "nr-ZA" ∷ "nso-ZA"
    ∷ "oc-FR" ∷ "om-ET" ∷ "om-KE" ∷ "or-IN" ∷ "os-RU" ∷ "pa-IN" ∷ "pa-PK" ∷ "pap-AW" ∷ "pap-CW"
    ∷ "pl-PL" ∷ "ps-AF" ∷ "pt-BR" ∷ "pt-PT" ∷ "quz-PE" ∷ "raj-IN" ∷ "ro-RO" ∷ "ru-RU" ∷ "ru-UA"
    ∷ "rw-RW" ∷ "sa-IN" ∷ "sah-RU" ∷ "sat-IN" ∷ "sc-IT" ∷ "sd-IN" ∷ "se-NO" ∷ "sgs-LT" ∷ "shn-MM"
    ∷ "shs-CA" ∷ "si-LK" ∷ "sid-ET" ∷ "sk-SK" ∷ "sl-SI" ∷ "sm-WS" ∷ "so-DJ" ∷ "so-ET" ∷ "so-KE"
    ∷ "so-SO" ∷ "sq-AL" ∷ "sq-MK" ∷ "sr-ME" ∷ "sr-RS" ∷ "ss-ZA" ∷ "st-ZA" ∷ "sv-FI" ∷ "sv-SE"
    ∷ "sw-KE" ∷ "sw-TZ" ∷ "szl-PL" ∷ "ta-IN" ∷ "ta-LK" ∷ "tcy-IN" ∷ "te-IN" ∷ "tg-TJ" ∷ "th-TH"
    ∷ "the-NP" ∷ "ti-ER" ∷ "ti-ET" ∷ "tig-ER" ∷ "tk-TM" ∷ "tl-PH" ∷ "tn-ZA" ∷ "to-TO" ∷ "tpi-PG"
    ∷ "tr-CY" ∷ "tr-TR" ∷ "ts-ZA" ∷ "tt-RU" ∷ "ug-CN" ∷ "uk-UA" ∷ "unm-US" ∷ "ur-IN" ∷ "ur-PK"
    ∷ "uz-UZ" ∷ "ve-ZA" ∷ "vi-VN" ∷ "wa-BE" ∷ "wae-CH" ∷ "wal-ET" ∷ "wo-SN" ∷ "xh-ZA" ∷ "yi-US"
    ∷ "yo-NG" ∷ "yue-HK" ∷ "yuw-PG" ∷ "zh-CN" ∷ "zh-HK" ∷ "zh-SG" ∷ []

abbrev pub locales_zh_to_zu : List String
locales_zh_to_zu = "zh-TW" ∷ "zu-ZA" ∷ []

-- `convert_locale_string_to_locale`
unfoldable pub convert_locale_string_to_locale : Text → Option Text
convert_locale_string_to_locale locale_str =
    if any (literal locale_str) (locales_aa_to_hy ++ (locales_ia_to_zh ++ locales_zh_to_zu))
    then some locale_str
    else none

-- What the extension works with, over the dates `D`. `add_seconds` is `none` where the duration or
-- the sum panics, and `format_localized` where the format does.
pub record Clock (D : Type 0) : Type 0 where
  pub now : D
  pub add_seconds : Number → D → Option D
  pub format_localized : D → (format locale : Text) → Option Text
  pub to_rfc2822 : D → Text
  pub get_locale : Option Text

module _ {D : Type 0} (clock : Clock D) where
  unfoldable pub get_system_locale : Text
  get_system_locale = unwrap_or clock.get_locale (codes "en-US")

  -- The date with the offset, if there is one that is an integer
  unfoldable pub add_offset : Option Value → D → Option D
  add_offset (some (number (integer n))) date = clock.add_seconds (integer n) date
  add_offset (some (number (negative n))) date = clock.add_seconds (negative n) date
  add_offset _ date = some date

  unfoldable pub locale_of : Option Value → Text
  locale_of (some (string locale)) = locale
  locale_of _ = get_system_locale

  unfoldable pub format_date_with_locale_string : D → (format locale_str : Text) → Option Text
  format_date_with_locale_string date format locale_str =
      clock.format_localized date format
        (unwrap_or (convert_locale_string_to_locale locale_str) (codes "en-US"))

  unfoldable pub format_date : D → Params → Option Value → Option Text
  format_date date params (some (string format)) =
      format_date_with_locale_string date format (locale_of (get (codes "locale") params))
  format_date date params _ = some (clock.to_rfc2822 date)

  -- A date that was formatted
  abbrev pub date_result : Option Text → Option ExtensionResult
  date_result none = none
  date_result (some date) = some (ExtensionResult.success (single date))

  -- `calculate_with_date`; `none` is a panic.
  unfoldable pub calculate_with_date : Params → D → Option ExtensionResult
  calculate_with_date params date = elim (add_offset (get (codes "offset") params) date) [
    | none ↦ none
    | some later ↦ date_result (format_date later params (get (codes "format") params))
  ]

  -- `DateExtension::calculate`
  unfoldable pub calculate_date : Params → Option ExtensionResult
  calculate_date params = calculate_with_date params clock.now
