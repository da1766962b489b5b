-- ===== src/Http/Tags.antt =====
-- Abstractions/Http/HttpTypes.hpp, `ToHttpRequest` and `ToStringContentLanguage`: the tags of the
-- languages, in the order in which the code tests for them.
use abstraction_layer.Prelude.{List, [], ◌∷◌, Option, none, some}
use abstraction_layer.Prelude.Text.{Text, codes}
use abstraction_layer.Http.Languages.{
  Language, afrikaans, amharic, arabic_saudi_arabia, assamese, azerbaijani_latin, belarusian,
  bulgarian, bangla_bangladesh, bangla_india, bosnian_latin, catalan_spanish, valencian, czech,
  welsh, danish, german_germany, greek, english_united_kingdom, english_united_states,
  spanish_spain, spanish_united_states, spanish_mexico, estonian, basque, persian, finnish,
  filipino, french_france, french_canada, irish, scottish_gaelic, galician, gujarati, hausa_latin,
  hebrew, hindi, croation, hungarian, armenian, indonesian, igbo, icelandic, italian_italy,
  japanese, georgian, kazakh, khmer, kannada, korean, konkani, central_kurdish, kyrgyz,
  luxem_bourgish, lithuanian, latvian, maori, macedonian, malayalam, mongolian_cyrillic,
  maylay_maylaysia, maltese, norwegian_bokmal, nepali_nepal, dutch_netherlands, norwegian_nynorsk,
  sesotho_sa_leboa, odia, punjabi_gurmukhi, punjabi_arabic, polish, dari, portuguese_brazil,
  portuguese_portugal, kiche, quechua_peru, romanian_romania, russian, kinyarwanda, sindhi_arabic,
  sinhala, slovak, slovenian, albanian, serbian_cyrillic_bosnia_herzegovina,
  serbian_cyrillic_serbia, serbian_latin_serbia, swedish_swedin, kiswahili, tamil, telugu,
  tajik_cyrillic, thai, tigrinya, turkmen_latin, setswana, turkish, tatar_cyrillic, uyghu, ukranian,
  urda, uzbek_latin, vietnamese, wolof, isi_xhosa, yoruba, chinese_simplified, chinese_traditional,
  isi_zulu,
}

-- A language with the value that is searched for in the header, and one that is searched for in the
-- whole request.
abbrev pub ReadTag : Type 0
ReadTag = Language × Text × Option Text

abbrev pub read_tags : List ReadTag
read_tags =
    (afrikaans, codes "af", none)
    ∷ (amharic, codes "am", none)
    ∷ (arabic_saudi_arabia, codes "ar-sa", none)
    ∷ (assamese, codes "as", none)
    ∷ (azerbaijani_latin, codes "az-latn", none)
    ∷ (belarusian, codes "be", none)
    ∷ (bulgarian, codes "bg", none)
    ∷ (bangla_bangladesh, codes "bn-BD", none)
    ∷ (bangla_india, codes "bn-IN", none)
    ∷ (bosnian_latin, codes "bs", none)
    ∷ (catalan_spanish, codes "ca", none)
    ∷ (valencian, codes "ca-ES-valencia", none)
    ∷ (czech, codes "cs", none)
    ∷ (welsh, codes "cy", none)
    ∷ (danish, codes "da", none)
    ∷ (german_germany, codes "de", some (codes "de-de"))
    ∷ (greek, codes "el", none)
    ∷ (english_united_kingdom, codes "en-GB", none)
    ∷ (english_united_states, codes "en-US", none)
    ∷ (spanish_spain, codes "es", some (codes "es-ES"))
    ∷ (spanish_united_states, codes "es-US", none)
    ∷ (spanish_mexico, codes "es-MX", none)
    ∷ (estonian, codes "et", none)
    ∷ (basque, codes "eu", none)
    ∷ (persian, codes "fa", none)
    ∷ (finnish, codes "fi", none)
    ∷ (filipino, codes "fil-Latn", none)
    ∷ (french_france, codes "fr", none)
    ∷ (french_canada, codes "fr-CA", none)
    ∷ (irish, codes "ga", none)
    ∷ (scottish_gaelic, codes "gd-Latn", none)
    ∷ (galician, codes "gl", none)
    ∷ (gujarati, codes "gu", none)
    ∷ (hausa_latin, codes "ha-Latn", none)
    ∷ (hebrew, codes "he", none)
    ∷ (hindi, codes "hi", none)
    ∷ (croation, codes "hr", none)
    ∷ (hungarian, codes "hu", none)
    ∷ (armenian, codes "hy", none)
    ∷ (indonesian, codes "id", none)
    ∷ (igbo, codes "ig-Latn", none)
    ∷ (icelandic, codes "is", none)
    ∷ (italian_italy, codes "it", some (codes "it-it"))
    ∷ (japanese, codes "ja", none)
    ∷ (georgian, codes "ka", none)
    ∷ (kazakh, codes "kk", none)
    ∷ (khmer, codes "km", none)
    ∷ (kannada, codes "kn", none)
    ∷ (korean, codes "ko", none)
    ∷ (konkani, codes "kok", none)
    ∷ (central_kurdish, codes "ku-Arab", none)
    ∷ (kyrgyz, codes "ky-Cyrl", none)
    ∷ (luxem_bourgish, codes "lb", none)
    ∷ (lithuanian, codes "lt", none)
    ∷ (latvian, codes "lv", none)
    ∷ (maori, codes "mi-Latn", none)
    ∷ (macedonian, codes "mk", none)
    ∷ (malayalam, codes "ml", none)
    ∷ (mongolian_cyrillic, codes "mn-Cyrl", none)
    ∷ (maylay_maylaysia, codes "mr", none)
    ∷ (maltese, codes "mt", none)
    ∷ (norwegian_bokmal, codes "nb", none)
    ∷ (nepali_nepal, codes "ne", none)
    ∷ (dutch_netherlands, codes "nl", some (codes "nl-BE"))
    ∷ (norwegian_nynorsk, codes "nn", none)
    ∷ (sesotho_sa_leboa, codes "nso", none)
    ∷ (odia, codes "or", none)
    ∷ (punjabi_gurmukhi, codes "pa", none)
    ∷ (punjabi_arabic, codes "pa-Arab", none)
    ∷ (polish, codes "pl", none)
    ∷ (dari, codes "prs-Arab", none)
    ∷ (portuguese_brazil, codes "pt-BR", none)
    ∷ (portuguese_portugal, codes "pt-PT", none)
    ∷ (kiche, codes "qut-Latn", none)
    ∷ (quechua_peru, codes "quz", none)
    ∷ (romanian_romania, codes "ro", none)
    ∷ (russian, codes "ru", none)
    ∷ (kinyarwanda, codes "rw", none)
    ∷ (sindhi_arabic, codes "sd-Arab", none)
    ∷ (sinhala, codes "si", none)
    ∷ (slovak, codes "sk", none)
    ∷ (slovenian, codes "sl", none)
    ∷ (albanian, codes "sq", none)
    ∷ (serbian_cyrillic_bosnia_herzegovina, codes "sr-Cyrl-BA", none)
    ∷ (serbian_cyrillic_serbia, codes "sr-Cyrl-RS", none)
    ∷ (serbian_latin_serbia, codes "sr-Latn-RS", none)
    ∷ (swedish_swedin, codes "sv", none)
    ∷ (kiswahili, codes "sw", none)
    ∷ (tamil, codes "ta", none)
    ∷ (telugu, codes "te", none)
    ∷ (tajik_cyrillic, codes "tg-Cyrl", none)
    ∷ (thai, codes "th", none)
    ∷ (tigrinya, codes "ti", none)
    ∷ (turkmen_latin, codes "tk-Latn", none)
    ∷ (setswana, codes "tn", none)
    ∷ (turkish, codes "tr", none)
    ∷ (tatar_cyrillic, codes "tt-Cyrl", none)
    ∷ (uyghu, codes "ug-Arab", none)
    ∷ (ukranian, codes "uk", none)
    ∷ (urda, codes "ur", none)
    ∷ (uzbek_latin, codes "uz-Latn", none)
    ∷ (vietnamese, codes "vi", none)
    ∷ (wolof, codes "wo", none)
    ∷ (isi_xhosa, codes "xh", none)
    ∷ (yoruba, codes "yo-Latn", none)
    ∷ (chinese_simplified, codes "zh-Hans", none)
    ∷ (chinese_traditional, codes "zh-Hant", none)
    ∷ (isi_zulu, codes "zu", none)
    ∷ []

abbrev pub PrintedTag : Type 0
PrintedTag = Language × Text

abbrev pub printed_tags : List PrintedTag
printed_tags =
    (afrikaans, codes "af")
    ∷ (amharic, codes "am")
    ∷ (arabic_saudi_arabia, codes "ar-sa")
    ∷ (assamese, codes "as")
    ∷ (azerbaijani_latin, codes "az-latn")
    ∷ (belarusian, codes "be")
    ∷ (bulgarian, codes "bg")
    ∷ (bangla_bangladesh, codes "bn-BD")
    ∷ (bangla_india, codes "bn-IN")
    ∷ (bosnian_latin, codes "bs")
    ∷ (catalan_spanish, codes "ca")
    ∷ (valencian, codes "ca-ES-valencia")
    ∷ (czech, codes "cs")
    ∷ (welsh, codes "cy")
    ∷ (danish, codes "da")
    ∷ (german_germany, codes "de")
    ∷ (greek, codes "el")
    ∷ (english_united_kingdom, codes "en-GB")
    ∷ (english_united_states, codes "en-US")
    ∷ (spanish_spain, codes "es-ES")
    ∷ (spanish_united_states, codes "es-US")
    ∷ (spanish_mexico, codes "es-MX")
    ∷ (estonian, codes "et")
    ∷ (basque, codes "eu")
    ∷ (persian, codes "fa")
    ∷ (finnish, codes "fi")
    ∷ (filipino, codes "fil-Latn")
    ∷ (french_france, codes "fr")
    ∷ (french_canada, codes "fr-CA")
    ∷ (irish, codes "ga")
    ∷ (scottish_gaelic, codes "gd-Latn")
    ∷ (galician, codes "gl")
    ∷ (gujarati, codes "gu")
    ∷ (hausa_latin, codes "ha-Latn")
    ∷ (hebrew, codes "he")
    ∷ (hindi, codes "hi")
    ∷ (croation, codes "hr")
    ∷ (hungarian, codes "hu")
    ∷ (armenian, codes "hy")
    ∷ (indonesian, codes "id")
    ∷ (igbo, codes "ig-Latn")
    ∷ (icelandic, codes "is")
    ∷ (italian_italy, codes "it")
    ∷ (japanese, codes "ja")
    ∷ (georgian, codes "ka")
    ∷ (kazakh, codes "kk")
    ∷ (khmer, codes "km")
    ∷ (kannada, codes "kn")
    ∷ (korean, codes "ko")
    ∷ (konkani, codes "kok")
    ∷ (central_kurdish, codes "ku-Arab")
    ∷ (kyrgyz, codes "ky-Cyrl")
    ∷ (luxem_bourgish, codes "lb")
    ∷ (lithuanian, codes "lt")
    ∷ (latvian, codes "lv")
    ∷ (maori, codes "mi-Latn")
    ∷ (macedonian, codes "mk")
    ∷ (malayalam, codes "ml")
    ∷ (mongolian_cyrillic, codes "mn-Cyrl")
    ∷ (maylay_maylaysia, codes "mr")
    ∷ (maltese, codes "mt")
    ∷ (norwegian_bokmal, codes "nb")
    ∷ (nepali_nepal, codes "ne")
    ∷ (dutch_netherlands, codes "nl")
    ∷ (norwegian_nynorsk, codes "nn")
    ∷ (sesotho_sa_leboa, codes "nso")
    ∷ (odia, codes "or")
    ∷ (punjabi_gurmukhi, codes "pa")
    ∷ (punjabi_arabic, codes "pa-Arab")
    ∷ (polish, codes "pl")
    ∷ (dari, codes "prs-Arab")
    ∷ (portuguese_brazil, codes "pt-BR")
    ∷ (portuguese_portugal, codes "pt-PT")
    ∷ (kiche, codes "qut-Latn")
    ∷ (quechua_peru, codes "quz")
    ∷ (romanian_romania, codes "ro")
    ∷ (russian, codes "ru")
    ∷ (kinyarwanda, codes "rw")
    ∷ (sindhi_arabic, codes "sd-Arab")
    ∷ (sinhala, codes "si")
    ∷ (slovak, codes "sk")
    ∷ (slovenian, codes "sl")
    ∷ (albanian, codes "sq")
    ∷ (serbian_cyrillic_bosnia_herzegovina, codes "sr-Cyrl-BA")
    ∷ (serbian_latin_serbia, codes "sr-Latn-RS")
    ∷ (swedish_swedin, codes "sv")
    ∷ (kiswahili, codes "sw")
    ∷ (tamil, codes "ta")
    ∷ (telugu, codes "te")
    ∷ (tajik_cyrillic, codes "tg-Cyrl")
    ∷ (thai, codes "th")
    ∷ (tigrinya, codes "ti")
    ∷ (turkmen_latin, codes "tk-Latn")
    ∷ (setswana, codes "tn")
    ∷ (turkish, codes "tr")
    ∷ (tatar_cyrillic, codes "tt-Cyrl")
    ∷ (uyghu, codes "ug-Arab")
    ∷ (ukranian, codes "uk")
    ∷ (urda, codes "ur")
    ∷ (uzbek_latin, codes "uz-Latn")
    ∷ (vietnamese, codes "vi")
    ∷ (wolof, codes "wo")
    ∷ (isi_xhosa, codes "xh")
    ∷ (yoruba, codes "yo-Latn")
    ∷ (chinese_simplified, codes "zh-Hans")
    ∷ (chinese_traditional, codes "zh-Hant")
    ∷ (isi_zulu, codes "zu")
    ∷ []
