-- ===== src/Tests/Words.antt =====
-- Runs of comm/modbus_protocol.py.
use auto_weaver.Prelude.{ℕ, ◌+◌, ◌*◌, ◌/◌, ◌%◌, ◌≡◌, refl, [], ◌∷◌, arith}
use auto_weaver.Value.{ok}
use auto_weaver.Modbus.{
  cdab, Bytes, words_of_values, values_of_words, sent_words, float_to_words, words_of_bytes,
  bytes_to_word,
}
use auto_weaver.Modbus.Words.{AreBytes, values_of_words-words_of_values}

-- numbers of 32 bits in the place of REAL(32) values
abbrev pack : ℕ → Bytes
pack n = record { a = n / 16777216 % 256; b = n / 65536 % 256; c = n / 256 % 256; d = n % 256 }

abbrev unpack : Bytes → ℕ
unpack r = r.a * 16777216 + r.b * 65536 + r.c * 256 + r.d

pack-AreBytes : (n : ℕ) → AreBytes (pack n)
pack-AreBytes n = record {
  a_byte = omega arith;
  b_byte = omega arith;
  c_byte = omega arith;
  d_byte = omega arith;
}

values_of_words-words_of_values_example :
    values_of_words pack unpack cdab
      (sent_words (words_of_values pack unpack cdab (305419896 ∷ 7 ∷ [])))
    ≡ ok (305419896 ∷ 7 ∷ [])
values_of_words-words_of_values_example =
    values_of_words-words_of_values pack unpack pack-AreBytes cdab (305419896 ∷ 7 ∷ [])

swapped : words_of_values pack unpack cdab (305419896 ∷ []) ≡ 22136 ∷ 4660 ∷ []
unfolding words_of_values float_to_words words_of_bytes bytes_to_word
swapped = refl
