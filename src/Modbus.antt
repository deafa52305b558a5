-- ===== src/Modbus.antt =====
-- comm/modbus_protocol.py: the conversion of REAL(32) values to 16-bit words and back. `struct.pack`
-- and `struct.unpack` of ">f" are parameters; the transport is not modelled.
pub mod Words
use auto_weaver.Prelude.{ℕ, ◌+◌, ◌*◌, ◌/◌, ◌%◌, Option, none, some, List, [], ◌∷◌, ◌++◌, map}
use auto_weaver.Value.{Result, ok, err, index_error}

-- what `_float_order` returns; a name that it refuses is left out
pub data WordOrder : Type 0 where
  abcd cdab badc dcba : WordOrder

-- the four bytes of a REAL(32), the most significant first
pub record Bytes : Type 0 where
  pub a : ℕ
  pub b : ℕ
  pub c : ℕ
  pub d : ℕ

-- `word & 0xFFFF`
abbrev pub mask : ℕ → ℕ
mask word = word % 65536

-- `_word_to_bytes`
unfoldable pub word_to_bytes : ℕ → ℕ × ℕ
word_to_bytes word = (mask word / 256 % 256, mask word % 256)

-- `_bytes_to_word`
unfoldable pub bytes_to_word : ℕ → ℕ → ℕ
bytes_to_word high low = high % 256 * 256 + low % 256

unfoldable pub words_of_bytes : WordOrder → Bytes → ℕ × ℕ
unfolding bytes_to_word
words_of_bytes abcd r = (bytes_to_word r.a r.b, bytes_to_word r.c r.d)
words_of_bytes cdab r = (bytes_to_word r.c r.d, bytes_to_word r.a r.b)
words_of_bytes badc r = (bytes_to_word r.b r.a, bytes_to_word r.d r.c)
words_of_bytes dcba r = (bytes_to_word r.d r.c, bytes_to_word r.b r.a)

unfoldable pub bytes_of_words : WordOrder → ℕ → ℕ → Bytes
unfolding word_to_bytes
bytes_of_words order word0 word1 =
    let (w0h, w0l) = word_to_bytes word0 in
    let (w1h, w1l) = word_to_bytes word1 in
    elim order [
      | abcd ↦ record { a = w0h; b = w0l; c = w1h; d = w1l }
      | cdab ↦ record { a = w1h; b = w1l; c = w0h; d = w0l }
      | badc ↦ record { a = w0l; b = w0h; c = w1l; d = w1h }
      | dcba ↦ record { a = w1l; b = w1h; c = w0l; d = w0h }
    ]

module _ {F : Type 0} (pack : F → Bytes) (unpack : Bytes → F) where
  unfoldable pub float_to_words : WordOrder → F → ℕ × ℕ
  unfolding words_of_bytes
  float_to_words order value = words_of_bytes order (pack value)

  unfoldable pub words_to_float : WordOrder → ℕ → ℕ → F
  unfolding bytes_of_words
  words_to_float order word0 word1 = unpack (bytes_of_words order word0 word1)

  -- The words that `write_real32_block` hands to `write_words`.
  unfoldable pub words_of_values : WordOrder → List F → List ℕ
  unfolding float_to_words
  words_of_values order [] = []
  words_of_values order (value ∷ rest) =
      let (word0, word1) = float_to_words order value in word0 ∷ word1 ∷ words_of_values order rest

  -- What `read_real32_block` makes of the words read: a word without its second one raises.
  unfoldable pub values_of_words : WordOrder → List ℕ → Result (List F)
  unfolding words_to_float
  values_of_words order [] = ok []
  values_of_words order (word0 ∷ []) = err index_error
  values_of_words order (word0 ∷ word1 ∷ rest) = elim (values_of_words order rest) [
    | ok values ↦ ok (words_to_float order word0 word1 ∷ values)
    | err e ↦ err e
  ]

-- The words that `write_words` sends: each is cut to 16 bits.
unfoldable pub sent_words : List ℕ → List ℕ
sent_words words = map mask words
