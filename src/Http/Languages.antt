-- ===== src/Http/Languages.antt =====
-- Abstractions/Http/HttpTypes.hpp: the languages.
use abstraction_layer.Prelude.{ℕ, Bool, ◌==◌}

pub data Language : Type 0 where
  unknown afrikaans amharic arabic_saudi_arabia assamese azerbaijani_latin belarusian : Language
  bulgarian bangla_bangladesh bangla_india bosnian_latin catalan_spanish valencian czech : Language
  welsh danish german_germany greek english_united_kingdom english_united_states spanish_spain :
      Language
  spanish_united_states spanish_mexico estonian basque persian finnish filipino : Language
  french_france french_canada irish scottish_gaelic galician gujarati hausa_latin : Language
  hebrew hindi croation hungarian armenian indonesian igbo : Language
  icelandic italian_italy japanese georgian kazakh khmer kannada : Language
  korean konkani central_kurdish kyrgyz luxem_bourgish lithuanian latvian : Language
  maori macedonian malayalam mongolian_cyrillic marathi maylay_maylaysia maltese : Language
  norwegian_bokmal nepali_nepal dutch_netherlands norwegian_nynorsk sesotho_sa_leboa odia
        punjabi_gurmukhi :
      Language
  punjabi_arabic polish dari portuguese_brazil portuguese_portugal kiche quechua_peru : Language
  romanian_romania russian kinyarwanda sindhi_arabic sinhala slovak slovenian : Language
  albanian serbian_cyrillic_bosnia_herzegovina serbian_cyrillic_serbia serbian_latin_serbia
        swedish_swedin kiswahili tamil :
      Language
  telugu tajik_cyrillic thai tigrinya turkmen_latin setswana turkish : Language
  tatar_cyrillic uyghu ukranian urda uzbek_latin vietnamese wolof : Language
  isi_xhosa yoruba chinese_simplified chinese_traditional isi_zulu : Language

-- The number of an enumerator.
unfoldable pub language_value : Language → ℕ
language_value unknown = 0
language_value afrikaans = 1
language_value amharic = 2
language_value arabic_saudi_arabia = 3
language_value assamese = 4
language_value azerbaijani_latin = 5
language_value belarusian = 6
language_value bulgarian = 7
language_value bangla_bangladesh = 8
language_value bangla_india = 9
language_value bosnian_latin = 10
language_value catalan_spanish = 11
language_value valencian = 12
language_value czech = 13
language_value welsh = 14
language_value danish = 15
language_value german_germany = 16
language_value greek = 17
language_value english_united_kingdom = 18
language_value english_united_states = 19
language_value spanish_spain = 20
language_value spanish_united_states = 21
language_value spanish_mexico = 22
language_value estonian = 23
language_value basque = 24
language_value persian = 25
language_value finnish = 26
language_value filipino = 27
language_value french_france = 28
language_value french_canada = 29
language_value irish = 30
language_value scottish_gaelic = 31
language_value galician = 32
language_value gujarati = 33
language_value hausa_latin = 34
language_value hebrew = 35
language_value hindi = 36
language_value croation = 37
language_value hungarian = 38
language_value armenian = 39
language_value indonesian = 40
language_value igbo = 41
language_value icelandic = 42
language_value italian_italy = 43
language_value japanese = 44
language_value georgian = 45
language_value kazakh = 46
language_value khmer = 47
language_value kannada = 48
language_value korean = 49
language_value konkani = 50
language_value central_kurdish = 51
language_value kyrgyz = 52
language_value luxem_bourgish = 53
language_value lithuanian = 54
language_value latvian = 55
language_value maori = 56
language_value macedonian = 57
language_value malayalam = 58
language_value mongolian_cyrillic = 59
language_value marathi = 60
language_value maylay_maylaysia = 61
language_value maltese = 62
language_value norwegian_bokmal = 63
language_value nepali_nepal = 64
language_value dutch_netherlands = 65
language_value norwegian_nynorsk = 66
language_value sesotho_sa_leboa = 67
language_value odia = 68
language_value punjabi_gurmukhi = 69
language_value punjabi_arabic = 70
language_value polish = 71
language_value dari = 72
language_value portuguese_brazil = 73
language_value portuguese_portugal = 74
language_value kiche = 75
language_value quechua_peru = 76
language_value romanian_romania = 77
language_value russian = 78
language_value kinyarwanda = 79
language_value sindhi_arabic = 80
language_value sinhala = 81
language_value slovak = 82
language_value slovenian = 83
language_value albanian = 84
language_value serbian_cyrillic_bosnia_herzegovina = 85
language_value serbian_cyrillic_serbia = 86
language_value serbian_latin_serbia = 87
language_value swedish_swedin = 88
language_value kiswahili = 89
language_value tamil = 90
language_value telugu = 91
language_value tajik_cyrillic = 92
language_value thai = 93
language_value tigrinya = 94
language_value turkmen_latin = 95
language_value setswana = 96
language_value turkish = 97
language_value tatar_cyrillic = 98
language_value uyghu = 99
language_value ukranian = 100
language_value urda = 101
language_value uzbek_latin = 102
language_value vietnamese = 103
language_value wolof = 104
language_value isi_xhosa = 105
language_value yoruba = 106
language_value chinese_simplified = 107
language_value chinese_traditional = 108
language_value isi_zulu = 109

-- Enumerators are compared by their numbers.
unfoldable pub same_language : Language → Language → Bool
unfolding language_value
same_language l m = language_value l == language_value m
