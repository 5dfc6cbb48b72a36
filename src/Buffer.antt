-- ===== src/Buffer.antt =====
-- The message buffer of src/bts_init.c (`char msg[BUFFER_LENGTH]`) and the byte order that the
-- message structures of src/bts_nm.h are read and written in.
-- A buffer is its content, a byte at each offset. Where the offset is no constant the code that
-- accesses it tests it against `buffer_length` and faults.
use soft_bts.Base.{
  ℕ, zero, suc, ◌+◌, ◌*◌, ◌/◌, ◌%◌, ◌<◌, ◌≡◌, List, [], ◌∷◌, ◌==◌, if◌then◌else◌, arith, length, ap,
  refl,
}

-- BUFFER_LENGTH of src/softbts.h
abbrev pub buffer_length : ℕ
buffer_length = 255

abbrev pub Buffer : Type 0
Buffer = ℕ → ℕ

-- A store of one `u_int8_t` field.
abbrev pub store : ℕ → ℕ → Buffer → Buffer
store i v b = λ j. if j == i then v else b j

-- A store of a `u_int16_t` on the little-endian hosts that the constants of src/bts_nm.c suppose:
-- there `head->len = 0x0900` is the length 9 in network byte order.
abbrev pub store16 : ℕ → ℕ → Buffer → Buffer
store16 i v b = store (i + 1) (v / 256) (store i (v % 256) b)

abbrev pub load16 : Buffer → ℕ → ℕ
load16 b i = b i + 256 * b (i + 1)

-- `htons` and `ntohs` on such a host.
abbrev pub htons : ℕ → ℕ
htons v = (v % 256) * 256 + v / 256

-- The bytes of a text are stored one after the other (`strcpy`, and what `recv` writes).
abbrev pub store_list : ℕ → List ℕ → Buffer → Buffer
store_list i [] b = b
store_list i (x ∷ xs) b = store_list (i + 1) xs (store i x b)

-- The `n` bytes from offset `i` on, as `send` takes them.
abbrev pub bytes : Buffer → ℕ → ℕ → List ℕ
bytes b i zero = []
bytes b i (suc n) = b i ∷ bytes b (i + 1) n

pub htons-htons : (v : ℕ) → v < 65536 → htons (htons v) ≡ v
htons-htons v h = omega arith

pub length-bytes : (b : Buffer) (i n : ℕ) → length (bytes b i n) ≡ n
length-bytes b i zero = refl
length-bytes b i (suc n) = ap suc (length-bytes b (i + 1) n)
