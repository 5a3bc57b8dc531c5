-- ===== src/Buffer/Text.antt =====
-- `write_string` and `to_string`: what is written through a window is what is read through it.
use p2p_live.Prelude.{
  ℕ, ◌+◌, ◌-◌, ◌≤◌, ◌≡◌, refl, sym, ap, ◌∙◌, arith, some, List, ◌++◌, length, take, drop, min,
  length-take, length-append, length-drop, drop-take_append, take-length, le→leb, take-append,
  take-drop, drop-drop, ltb, if◌then◌else◌,
}
use p2p_live.Buffer.Memory.{Heap, bytes_at, splice, overwrite_at, read_range}
use p2p_live.Buffer.Memory.Updates.{overwrite_at_lem}
use p2p_live.Buffer.{SocketBuffer, get_length, put_bytes, get_bytes, write_string, to_string}
use p2p_live.Buffer.Window.{IsValid, get_length_lem}

-- The window read from a splice at its start.
take-drop-splice :
    (off n : ℕ) (xs ys : List ℕ)
    → off + n ≤ length xs
    → length ys ≤ n
    → take n (drop off (splice xs off ys)) ≡ ys ++ drop (length ys) (take n (drop off xs))
take-drop-splice off n xs ys h k =
    ap (take n) (drop-take_append off xs (ys ++ drop (off + length ys) xs) (omega arith))
    ∙ take-append n ys (drop (off + length ys) xs) k
    ∙ ap (λ t. ys ++ take (n - length ys) t) (sym (drop-drop (length ys) off xs))
    ∙ ap (λ t. ys ++ t) (take-drop n (length ys) (drop off xs))

length-splice :
    (off : ℕ) (xs ys : List ℕ) → off + length ys ≤ length xs → length (splice xs off ys) ≡ length xs
length-splice off xs ys h = omega (
  arith,
  length-append (take off xs) (ys ++ drop (off + length ys) xs),
  length-append ys (drop (off + length ys) xs),
  length-take off xs,
  length-drop (off + length ys) xs,
)

-- The buffer's block is there and as long as its window.
pub record Backed (b : SocketBuffer) (h : Heap) (xs : List ℕ) : Type 0 where
  pub block : ℕ
  pub points : b.ptr ≡ some block
  pub holds_bytes : bytes_at h block ≡ some xs
  pub long : b.valid_data_length ≤ length xs

-- `to_string` gives the bytes of the window.
pub to_string_lem :
    (b : SocketBuffer) (h : Heap) (xs : List ℕ)
    → IsValid b
    → Backed b h xs
    → to_string b h ≡ some (take (get_length b) (drop b.walk_offset xs))
unfolding to_string get_bytes read_range
to_string_lem b h xs v k = ground (arith, get_length_lem b v, k.points, k.holds_bytes)

put_bytes_lem :
    (b : SocketBuffer) (h : Heap) (ys : List ℕ) (p : ℕ)
    → b.ptr ≡ some p
    → put_bytes ys b h ≡ overwrite_at p b.walk_offset ys h
unfolding put_bytes
put_bytes_lem b h ys p e = ground (arith, e)

write_string-min :
    (b : SocketBuffer) (h h' : Heap) (str : List ℕ) (n : ℕ)
    → min (length str) (get_length b) ≡ n
    → put_bytes (take n str) b h ≡ some h'
    → write_string str b h ≡ some (n, h')
unfolding write_string
write_string-min b h h' str n e put =
    let cut : (if ltb (get_length b) (length str) then get_length b else length str) ≡ n =
      ground arith in
    ground (arith, cut, put)

-- On a valid buffer over a live block, `write_string` writes as much of the string as the window
-- holds and returns how much that was, and a `to_string` afterwards reads it back, followed by
-- what the window held behind it.
pub to_string-write_string :
    (b : SocketBuffer) (h : Heap) (xs str : List ℕ)
    → IsValid b
    → Backed b h xs
    → let n = min (length str) (get_length b) in
      (h' : Heap) × (write_string str b h ≡ some (n, h'))
      × (to_string b h' ≡ some (take n str ++ drop n (take (get_length b) (drop b.walk_offset xs))))
to_string-write_string b h xs str v k =
    let n = min (length str) (get_length b) in
    let cut : length (take n str) ≡ n = omega (arith, length-take n str) in
    let room : b.walk_offset + get_length b ≤ length xs =
      omega (arith, get_length_lem b v, k.long, v.walk_in_valid) in
    let (h', ran, now, _) =
      overwrite_at_lem k.block b.walk_offset (take n str) xs h k.holds_bytes (omega arith) in
    let backed : Backed b h' (splice xs b.walk_offset (take n str)) = record {
      block = k.block;
      points = k.points;
      holds_bytes = now;
      long = omega (arith, k.long, length-splice b.walk_offset xs (take n str) (omega arith));
    } in
    (
      h',
      write_string-min b h h' str n refl (put_bytes_lem b h (take n str) k.block k.points ∙ ran),
      to_string_lem b h' _ v backed
          ∙ ap some (
              take-drop-splice b.walk_offset (get_length b) xs (take n str) room (omega arith)
              ∙ ap (λ m. take n str ++ drop m (take (get_length b) (drop b.walk_offset xs))) cut),
    )

-- Bytes that are put through a window and fit in it are got back, and the block stays as long.
pub get_bytes-put_bytes :
    (b : SocketBuffer) (h : Heap) (xs ys : List ℕ)
    → IsValid b
    → Backed b h xs
    → length ys ≤ get_length b
    → (h' : Heap) × (put_bytes ys b h ≡ some h') × (get_bytes (length ys) b h' ≡ some ys)
unfolding get_bytes read_range
get_bytes-put_bytes b h xs ys v k fits =
    let room : b.walk_offset + length ys ≤ length xs =
      omega (arith, get_length_lem b v, k.long, v.walk_in_valid) in
    let (h', ran, now, _) = overwrite_at_lem k.block b.walk_offset ys xs h k.holds_bytes room in
    let same = length-splice b.walk_offset xs ys room in
    let cut : take (length ys) (drop b.walk_offset (splice xs b.walk_offset ys)) ≡ ys =
      ap (take (length ys)) (drop-take_append b.walk_offset xs _ (omega arith))
      ∙ take-length ys _ in
    (
      h',
      put_bytes_lem b h ys k.block k.points ∙ ran,
      ground (
        arith,
        k.points,
        now,
        cut,
        le→leb (b.walk_offset + length ys) (length (splice xs b.walk_offset ys)) (omega arith),
      ),
    )
