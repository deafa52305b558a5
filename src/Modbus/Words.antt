-- ===== src/Modbus/Words.antt =====
-- The round trip of REAL(32) blocks in comm/modbus_protocol.py, in every word order.
use auto_weaver.Prelude.{ℕ, ◌<◌, ◌≡◌, refl, List, [], ◌∷◌, map, arith}
use auto_weaver.Value.{ok}
use auto_weaver.Modbus.{
  WordOrder, abcd, cdab, badc, dcba, Bytes, mask, word_to_bytes, bytes_to_word, words_of_bytes,
  bytes_of_words, float_to_words, words_to_float, words_of_values, values_of_words, sent_words,
}

-- Each of the four is a byte.
pub record AreBytes (r : Bytes) : Type 0 where
  pub a_byte : r.a < 256
  pub b_byte : r.b < 256
  pub c_byte : r.c < 256
  pub d_byte : r.d < 256

high_back : (h l : ℕ) → h < 256 → l < 256 → (word_to_bytes (mask (bytes_to_word h l))).0 ≡ h
unfolding word_to_bytes bytes_to_word
high_back h l p q = omega arith

low_back : (h l : ℕ) → h < 256 → l < 256 → (word_to_bytes (mask (bytes_to_word h l))).1 ≡ l
unfolding word_to_bytes bytes_to_word
low_back h l p q = omega arith

same_bytes : (r s : Bytes) → s.a ≡ r.a → s.b ≡ r.b → s.c ≡ r.c → s.d ≡ r.d → s ≡ r
same_bytes r s p q u v = rw (p, q, u, v) refl

bytes_of_words-words_of_bytes :
    (order : WordOrder) (r : Bytes)
    → AreBytes r
    → let (word0, word1) = words_of_bytes order r in
      bytes_of_words order (mask word0) (mask word1) ≡ r
unfolding words_of_bytes bytes_of_words
bytes_of_words-words_of_bytes abcd r h =
    same_bytes r _ (high_back _ _ h.a_byte h.b_byte) (low_back _ _ h.a_byte h.b_byte)
      (high_back _ _ h.c_byte h.d_byte) (low_back _ _ h.c_byte h.d_byte)
bytes_of_words-words_of_bytes cdab r h =
    same_bytes r _ (high_back _ _ h.a_byte h.b_byte) (low_back _ _ h.a_byte h.b_byte)
      (high_back _ _ h.c_byte h.d_byte) (low_back _ _ h.c_byte h.d_byte)
bytes_of_words-words_of_bytes badc r h =
    same_bytes r _ (low_back _ _ h.b_byte h.a_byte) (high_back _ _ h.b_byte h.a_byte)
      (low_back _ _ h.d_byte h.c_byte) (high_back _ _ h.d_byte h.c_byte)
bytes_of_words-words_of_bytes dcba r h =
    same_bytes r _ (low_back _ _ h.b_byte h.a_byte) (high_back _ _ h.b_byte h.a_byte)
      (low_back _ _ h.d_byte h.c_byte) (high_back _ _ h.d_byte h.c_byte)

module _ {F : Type 0} (pack : F → Bytes) (unpack : Bytes → F)
    (packed : (v : F) → AreBytes (pack v)) where
  words_to_float-float_to_words :
      (order : WordOrder) (v : F)
      → let (word0, word1) = float_to_words pack unpack order v in
        words_to_float pack unpack order (mask word0) (mask word1) ≡ unpack (pack v)
  unfolding float_to_words words_to_float
  words_to_float-float_to_words order v =
      rw (bytes_of_words-words_of_bytes order (pack v) (packed v)) refl

  -- A block of REAL(32) values that is sent, with each word cut to 16 bits, and read back in the
  -- same word order is the block in single precision, whichever of the four orders it is, if
  -- `struct.pack` gives bytes.
  pub values_of_words-words_of_values :
      (order : WordOrder) (values : List F)
      → values_of_words pack unpack order (sent_words (words_of_values pack unpack order values))
        ≡ ok (map (λ v. unpack (pack v)) values)
  unfolding values_of_words words_of_values sent_words
  values_of_words-words_of_values order [] = refl
  values_of_words-words_of_values order (v ∷ rest) =
      rw (values_of_words-words_of_values order rest, words_to_float-float_to_words order v) refl
