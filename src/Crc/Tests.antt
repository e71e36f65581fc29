-- ===== src/Crc/Tests.antt =====
-- The hash of server/crc.c at a key, and the theorem on it there.
use pris_kv.Base.{ℕ, ◌<◌, ◌≡◌, List, [], ◌∷◌, length, refl, arith}
use pris_kv.Base.Word.{u32_mod}
use pris_kv.Crc.{crc32, crc_loop, unrolled, crc32_1, crc_entry}
use pris_kv.Crc.Loops.{bitwise_crc, Bytes, crc32_lem}

-- Thirteen bytes, for which all three loops run.
abbrev key : List ℕ
key = b'1' ∷ b'2' ∷ b'3' ∷ b'4' ∷ b'5' ∷ b'6' ∷ b'7' ∷ b'8' ∷ b'9' ∷ b'a' ∷ b'b' ∷ b'1' ∷ b'2' ∷ []

key-Bytes : Bytes key
unfolding Bytes
key-Bytes = omega arith

crc32-key : crc32 key 13 ≡ 989221368
unfolding crc32 crc_loop unrolled crc32_1 crc_entry
crc32-key = refl

crc32_lem_example :
    (crc32 key (length key) ≡ bitwise_crc 0 key) × (crc32 key (length key) < u32_mod)
crc32_lem_example = crc32_lem key key-Bytes
