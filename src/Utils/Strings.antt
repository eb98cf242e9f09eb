-- ===== src/Utils/Strings.antt =====
-- `strcmp_ex` and `writeBuffer`. A string is its characters without the 0 at its end, which is what
-- is read there.
use select_mode_network.Base.{
  ℕ, zero, suc, ◌+◌, ◌||◌, if◌then◌else◌, ltb, ◌==◌, get_or, length, take, drop, replicate,
  write_at,
}
use select_mode_network.Base.Int.{ℤ}
use select_mode_network.Buffer.Data.{Bytes, ushort_of}
use select_mode_network.Protocol.{head_size}

-- The loop of `strcmp_ex`, with `left` more characters to compare; it returns `i` at its end.
unfoldable pub scan : ℕ → ℕ → Bytes → Bytes → ℕ
scan zero i s t = suc i
scan (suc left) i s t =
    let rest = scan left (suc i) (drop 1 s) (drop 1 t) in
    if get_or s 0 0 == get_or t 0 0 then rest else suc i

-- `strcmp_ex` once `cmpLen` is known.
unfoldable pub compare_front : Bytes → Bytes → ℕ → ℤ
unfolding scan
compare_front s t n =
    if ltb (length s) n || ltb (length t) n
    then ℤ.negsuc 0
    else if scan n 0 s t == n + 1
    then ℤ.pos 0
    else ℤ.negsuc 0

-- A negative length other than -1 is a huge number beside the `size_t` of `strlen`.
unfoldable pub strcmp_ex : Bytes → Bytes → ℤ → ℤ
unfolding compare_front
strcmp_ex s t (ℤ.pos n) = compare_front s t n
strcmp_ex s t (ℤ.negsuc zero) = compare_front s t (length t)
strcmp_ex s t (ℤ.negsuc (suc n)) = ℤ.negsuc 0

-- The number of bytes copied, and what `dst` holds then.
unfoldable pub write_buffer : ℕ → Bytes → ℕ × Bytes
write_buffer dst_size msg =
    let zeros = replicate dst_size 0 in
    let src_size = ushort_of msg in
    let cpy_len = if ltb src_size dst_size then src_size else dst_size in
    if ltb dst_size head_size then (0, zeros) else (cpy_len, write_at zeros 0 (take cpy_len msg))
