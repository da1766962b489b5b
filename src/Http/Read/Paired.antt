-- ===== src/Http/Read/Paired.antt =====
-- Abstractions/Http/HttpTypes.hpp: the languages that are written under a tag that they are searched
-- for by.
use abstraction_layer.Prelude.{◌≡◌, refl, Bool, true, false, List, [], ◌++◌}
use abstraction_layer.Prelude.Text.{contains, line_end}
use abstraction_layer.Http.Print.{has_language, to_string_content_language}
use abstraction_layer.Http.Read.{read_languages}
use abstraction_layer.Http.Languages.{
  Language, same_language, afrikaans, amharic, arabic_saudi_arabia, assamese, azerbaijani_latin,
  belarusian, bulgarian, bangla_bangladesh, bangla_india, bosnian_latin, catalan_spanish, valencian,
  czech, welsh, danish, german_germany, greek, english_united_kingdom, english_united_states,
  spanish_spain, spanish_united_states, spanish_mexico, estonian, basque, persian, finnish,
  filipino, french_france, french_canada, irish, scottish_gaelic, galician, gujarati, hausa_latin,
  hebrew, hindi, croation, hungarian, armenian, indonesian, igbo, icelandic, italian_italy,
  japanese, georgian, kazakh, khmer, kannada, korean, konkani, central_kurdish, kyrgyz,
  luxem_bourgish, lithuanian, latvian, maori, macedonian, malayalam, mongolian_cyrillic, marathi,
  maylay_maylaysia, maltese, norwegian_bokmal, nepali_nepal, dutch_netherlands, norwegian_nynorsk,
  sesotho_sa_leboa, odia, punjabi_gurmukhi, punjabi_arabic, polish, dari, portuguese_brazil,
  portuguese_portugal, kiche, quechua_peru, romanian_romania, russian, kinyarwanda, sindhi_arabic,
  sinhala, slovak, slovenian, albanian, serbian_cyrillic_bosnia_herzegovina,
  serbian_cyrillic_serbia, serbian_latin_serbia, swedish_swedin, kiswahili, tamil, telugu,
  tajik_cyrillic, thai, tigrinya, turkmen_latin, setswana, turkish, tatar_cyrillic, uyghu, ukranian,
  urda, uzbek_latin, vietnamese, wolof, isi_xhosa, yoruba, chinese_simplified, chinese_traditional,
  isi_zulu,
}
use abstraction_layer.Http.Read.Printed.{is_paired, read_languages-print}

-- The languages that are not in both tables.
abbrev pub is_lost : Language → Bool
is_lost Language.unknown = true
is_lost marathi = true
is_lost serbian_cyrillic_serbia = true
is_lost _ = false

pub is_paired_unless_lost : (l : Language) → is_lost l ≡ false → is_paired l ≡ true
unfolding is_paired contains same_language
is_paired_unless_lost Language.unknown h = cc
is_paired_unless_lost afrikaans h = refl
is_paired_unless_lost amharic h = refl
is_paired_unless_lost arabic_saudi_arabia h = refl
is_paired_unless_lost assamese h = refl
is_paired_unless_lost azerbaijani_latin h = refl
is_paired_unless_lost belarusian h = refl
is_paired_unless_lost bulgarian h = refl
is_paired_unless_lost bangla_bangladesh h = refl
is_paired_unless_lost bangla_india h = refl
is_paired_unless_lost bosnian_latin h = refl
is_paired_unless_lost catalan_spanish h = refl
is_paired_unless_lost valencian h = refl
is_paired_unless_lost czech h = refl
is_paired_unless_lost welsh h = refl
is_paired_unless_lost danish h = refl
is_paired_unless_lost german_germany h = refl
is_paired_unless_lost greek h = refl
is_paired_unless_lost english_united_kingdom h = refl
is_paired_unless_lost english_united_states h = refl
is_paired_unless_lost spanish_spain h = refl
is_paired_unless_lost spanish_united_states h = refl
is_paired_unless_lost spanish_mexico h = refl
is_paired_unless_lost estonian h = refl
is_paired_unless_lost basque h = refl
is_paired_unless_lost persian h = refl
is_paired_unless_lost finnish h = refl
is_paired_unless_lost filipino h = refl
is_paired_unless_lost french_france h = refl
is_paired_unless_lost french_canada h = refl
is_paired_unless_lost irish h = refl
is_paired_unless_lost scottish_gaelic h = refl
is_paired_unless_lost galician h = refl
is_paired_unless_lost gujarati h = refl
is_paired_unless_lost hausa_latin h = refl
is_paired_unless_lost hebrew h = refl
is_paired_unless_lost hindi h = refl
is_paired_unless_lost croation h = refl
is_paired_unless_lost hungarian h = refl
is_paired_unless_lost armenian h = refl
is_paired_unless_lost indonesian h = refl
is_paired_unless_lost igbo h = refl
is_paired_unless_lost icelandic h = refl
is_paired_unless_lost italian_italy h = refl
is_paired_unless_lost japanese h = refl
is_paired_unless_lost georgian h = refl
is_paired_unless_lost kazakh h = refl
is_paired_unless_lost khmer h = refl
is_paired_unless_lost kannada h = refl
is_paired_unless_lost korean h = refl
is_paired_unless_lost konkani h = refl
is_paired_unless_lost central_kurdish h = refl
is_paired_unless_lost kyrgyz h = refl
is_paired_unless_lost luxem_bourgish h = refl
is_paired_unless_lost lithuanian h = refl
is_paired_unless_lost latvian h = refl
is_paired_unless_lost maori h = refl
is_paired_unless_lost macedonian h = refl
is_paired_unless_lost malayalam h = refl
is_paired_unless_lost mongolian_cyrillic h = refl
is_paired_unless_lost marathi h = cc
is_paired_unless_lost maylay_maylaysia h = refl
is_paired_unless_lost maltese h = refl
is_paired_unless_lost norwegian_bokmal h = refl
is_paired_unless_lost nepali_nepal h = refl
is_paired_unless_lost dutch_netherlands h = refl
is_paired_unless_lost norwegian_nynorsk h = refl
is_paired_unless_lost sesotho_sa_leboa h = refl
is_paired_unless_lost odia h = refl
is_paired_unless_lost punjabi_gurmukhi h = refl
is_paired_unless_lost punjabi_arabic h = refl
is_paired_unless_lost polish h = refl
is_paired_unless_lost dari h = refl
is_paired_unless_lost portuguese_brazil h = refl
is_paired_unless_lost portuguese_portugal h = refl
is_paired_unless_lost kiche h = refl
is_paired_unless_lost quechua_peru h = refl
is_paired_unless_lost romanian_romania h = refl
is_paired_unless_lost russian h = refl
is_paired_unless_lost kinyarwanda h = refl
is_paired_unless_lost sindhi_arabic h = refl
is_paired_unless_lost sinhala h = refl
is_paired_unless_lost slovak h = refl
is_paired_unless_lost slovenian h = refl
is_paired_unless_lost albanian h = refl
is_paired_unless_lost serbian_cyrillic_bosnia_herzegovina h = refl
is_paired_unless_lost serbian_cyrillic_serbia h = cc
is_paired_unless_lost serbian_latin_serbia h = refl
is_paired_unless_lost swedish_swedin h = refl
is_paired_unless_lost kiswahili h = refl
is_paired_unless_lost tamil h = refl
is_paired_unless_lost telugu h = refl
is_paired_unless_lost tajik_cyrillic h = refl
is_paired_unless_lost thai h = refl
is_paired_unless_lost tigrinya h = refl
is_paired_unless_lost turkmen_latin h = refl
is_paired_unless_lost setswana h = refl
is_paired_unless_lost turkish h = refl
is_paired_unless_lost tatar_cyrillic h = refl
is_paired_unless_lost uyghu h = refl
is_paired_unless_lost ukranian h = refl
is_paired_unless_lost urda h = refl
is_paired_unless_lost uzbek_latin h = refl
is_paired_unless_lost vietnamese h = refl
is_paired_unless_lost wolof h = refl
is_paired_unless_lost isi_xhosa h = refl
is_paired_unless_lost yoruba h = refl
is_paired_unless_lost chinese_simplified h = refl
is_paired_unless_lost chinese_traditional h = refl
is_paired_unless_lost isi_zulu h = refl

-- For every language but the unknown one, Marathi and Serbian (Cyrillic, Serbia): in the header that
-- `ToStringContentLanguage` writes for a list with it, `ToHttpRequest` finds it again.
pub read_languages-written :
    (l : Language) (ls : List Language)
    → is_lost l ≡ false
    → has_language l ls ≡ true
    → has_language l (read_languages (to_string_content_language ls ++ line_end) []) ≡ true
read_languages-written l ls kept = read_languages-print l ls (is_paired_unless_lost l kept)
