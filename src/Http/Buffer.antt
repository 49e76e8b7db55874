-- ===== src/Http/Buffer.antt =====
-- Tema_3/buffer.c: a growing buffer, and the searches in it. `data` is NULL at `none`, and `size` is
-- the number of its bytes. (Memory is taken as unlimited.)
pub mod First
use teme_pcom.Prelude.{
  Bool, Bytes, Option, [], false, if◌then◌else◌, leb, length, ltb, none, some, suc, true, zero, ℕ,
  ◌&&◌, ◌++◌, ◌+◌, ◌-◌, ◌==◌, ◌∷◌,
}

pub record Buffer : Type 0 where
  pub contents : Option Bytes

abbrev pub bytes_of : Buffer → Bytes
bytes_of b = elim b.contents [ none ↦ [] | some bytes ↦ bytes ]

abbrev pub size : Buffer → ℕ
size b = length (bytes_of b)

unfoldable pub buffer_init : Buffer
buffer_init = record { contents = none }

unfoldable pub buffer_destroy : Buffer → Buffer
buffer_destroy b = record { contents = none }

unfoldable pub buffer_is_empty : Buffer → Bool
buffer_is_empty b = elim b.contents [ none ↦ true | some bytes ↦ false ]

unfoldable pub buffer_add : Buffer → Bytes → Buffer
buffer_add b added = record { contents = some (bytes_of b ++ added) }

-- tolower in the C locale
unfoldable pub tolower : ℕ → ℕ
tolower c = if leb b'A' c && leb c b'Z' then c + 32 else c

-- The inner loop: the bytes of the needle against those at a position, up to the first that differs.
unfoldable pub agrees : (ℕ → ℕ) → Bytes → Bytes → Bool
agrees f [] hay = true
agrees f (d ∷ needle) [] = false
agrees f (d ∷ needle) (c ∷ hay) = if f c == f d then agrees f needle hay else false

abbrev pub rest_of : Bytes → Bytes
rest_of [] = []
rest_of (c ∷ s) = s

-- The outer loop with n positions left, at position i, where the buffer goes on with `hay`.
unfoldable pub find_from : (ℕ → ℕ) → Bytes → ℕ → ℕ → Bytes → Option ℕ
find_from f needle zero i hay = none
find_from f needle (suc n) i hay =
    let later = find_from f needle n (i + 1) (rest_of hay) in
    if agrees f needle hay then some i else later

abbrev pub search_in : (ℕ → ℕ) → Buffer → Bytes → Option ℕ
search_in f b needle =
    if ltb (size b) (length needle)
    then none
    else find_from f needle (size b - length needle + 1) 0 (bytes_of b)

-- `none` is -1.
unfoldable pub buffer_find : Buffer → Bytes → Option ℕ
buffer_find b needle = search_in (λ c. c) b needle

unfoldable pub buffer_find_insensitive : Buffer → Bytes → Option ℕ
buffer_find_insensitive b needle = search_in tolower b needle
