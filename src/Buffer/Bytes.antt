-- ===== src/Buffer/Bytes.antt =====
-- The readable bytes of a `Buffer`, and what each operation does to them.
use green_turtle.Base.{
  ℕ, ◌+◌, ◌-◌, ◌^◌, ◌≤◌, ◌<◌, ◌≡◌, refl, sym, ap, ◌∙◌, Option, none, some, List, [], ◌++◌, map,
  arith, add64, sub64, ltb, leb, ◌==◌, length, take, drop, replicate, Bool-cases, ==_iff, true, inl,
  inr, length-append, length-take, length-drop, length-replicate, take_all, take_prefix,
  drop_prefix, append_assoc, length-map, le→leb, drop-take,
}
use green_turtle.Buffer.{
  Buffer, make, writable_length, readable_length, needed, grow, copy_in, has_written, append,
  retrieve,
}

-- The positions are in order, and the array is as long as believed, with a length that an `int`
-- holds.
pub record IsValid (b : Buffer) : Type 0 where
  pub allocated : length b.array ≡ b.size
  pub ordered : b.read ≤ b.write
  pub inside : b.write ≤ b.size
  pub small : b.size < 2 ^ 31

abbrev pub contents : Buffer → List (Option ℕ)
contents b = take (b.write - b.read) (drop b.read b.array)

pub length-contents : (b : Buffer) → IsValid b → length (contents b) ≡ b.write - b.read
length-contents b valid =
    omega (arith, length-take (b.write - b.read) (drop b.read b.array), length-drop b.read b.array)

pub make-IsValid : (n : ℕ) → n < 2 ^ 31 → IsValid (make n) × (contents (make n) ≡ [])
unfolding make
make-IsValid n small = (
  record {
    allocated = length-replicate n none;
    ordered = omega arith;
    inside = omega arith;
    small = small;
  },
  refl,
)

-- Where sizes fit an `int`, the bytes that are missing are counted right.
needed_lem :
    (b : Buffer) (n : ℕ) → IsValid b → b.write + n < 2 ^ 31 → needed b n ≡ b.write + n - b.size
unfolding needed writable_length
needed_lem b n valid small = ground arith

-- `grow` makes room for the bytes, and keeps those of the array.
grow_room :
    (b : Buffer) (n : ℕ)
    → IsValid b
    → b.write + n < 2 ^ 31
    → IsValid (grow b n)
      × (b.write + n ≤ (grow b n).size)
      × ((grow b n).read ≡ b.read)
      × ((grow b n).write ≡ b.write)
      × (take b.write (grow b n).array ≡ take b.write b.array)
unfolding grow
grow_room b n valid small =
    let need = needed_lem b n valid small in
    elim (Bool-cases (ltb 0 (needed b n))) [
      | inr none_missing ↦ rw none_missing (valid, ground arith, refl, refl, refl)
      | inl missing ↦
          let new = length-replicate {A = Option ℕ} (needed b n) none in
          rw missing (
            record {
              allocated = omega (arith, length-append b.array (replicate (needed b n) none));
              ordered = valid.ordered;
              inside = omega arith;
              small = omega arith;
            },
            omega arith,
            refl,
            refl,
            take_prefix b.write b.array (replicate (needed b n) none) (omega arith),
          )
    ]

-- The bytes of a range of an array, as the readable bytes are.
range_split :
    (xs ys : List (Option ℕ)) (read write : ℕ)
    → read ≤ write
    → write ≤ length xs
    → take (write - read + length ys) (drop read (take write xs ++ ys))
      ≡ take (write - read) (drop read xs) ++ ys
range_split xs ys read write h k =
    let prefix = length-take write xs in
    let inner : drop read (take write xs ++ ys) ≡ take (write - read) (drop read xs) ++ ys =
      drop_prefix read (take write xs) ys (omega arith)
      ∙ ap (λ l. l ++ ys) (drop-take read write xs) in
    rw inner (
      take_all (write - read + length ys) (take (write - read) (drop read xs) ++ ys) (
        omega (
          arith,
          length-append (take (write - read) (drop read xs)) ys,
          length-take (write - read) (drop read xs),
          length-drop read xs,
        )))

-- `b` with bytes copied to its write position, and that position moved on.
abbrev pub filled : Buffer → List ℕ → Buffer
filled b bytes = record b {
  array = take b.write b.array ++ (map some bytes ++ drop (b.write + length bytes) b.array);
  write = add64 b.write (length bytes);
}

pub copy_lem :
    (b : Buffer) (bytes : List ℕ)
    → b.write + length bytes ≤ length b.array
    → copy_in b bytes ≡ some (record b { array = (filled b bytes).array })
unfolding copy_in
copy_lem b bytes h = rw (le→leb (b.write + length bytes) (length b.array) h)

pub filled-IsValid :
    (b : Buffer) (bytes : List ℕ)
    → IsValid b
    → b.write + length bytes ≤ b.size
    → IsValid (filled b bytes)
filled-IsValid b bytes valid room = record {
  allocated = omega (
    arith,
    length-append (take b.write b.array) (map some bytes ++ drop (b.write + length bytes) b.array),
    length-append (map some bytes) (drop (b.write + length bytes) b.array),
    length-take b.write b.array,
    length-drop (b.write + length bytes) b.array,
    length-map bytes (λ x. some x),
  );
  ordered = omega arith;
  inside = omega arith;
  small = valid.small;
}

pub contents-filled :
    (b : Buffer) (bytes : List ℕ)
    → IsValid b
    → b.write + length bytes ≤ b.size
    → contents (filled b bytes) ≡ contents b ++ map some bytes
contents-filled b bytes valid room =
    let new : List (Option ℕ) = map some bytes in
    let rest = drop (b.write + length bytes) b.array in
    let front = take b.write b.array ++ new in
    let count : add64 b.write (length bytes) - b.read ≡ b.write - b.read + length new =
      omega (arith, length-map bytes (λ x. some x)) in
    let longer = length-append (take b.write b.array) new in
    let front_length = length-take b.write b.array in
    rw (count, ← append_assoc)
      (ap (take (b.write - b.read + length new)) (drop_prefix b.read front rest (omega arith))
        ∙ take_prefix (b.write - b.read + length new) (drop b.read front) rest
            (omega (arith, length-drop b.read front))
        ∙ range_split b.array new b.read b.write valid.ordered (omega arith))

-- `Append` succeeds and adds the bytes at the end of the readable ones.
pub append_lem :
    (b : Buffer) (bytes : List ℕ)
    → IsValid b
    → b.write + length bytes < 2 ^ 31
    → (c : Buffer) × (append b bytes ≡ some (length bytes, c))
      × IsValid c
      × (contents c ≡ contents b ++ map some bytes)
      × (c.read ≡ b.read)
      × (c.write ≡ b.write + length bytes)
unfolding append has_written
append_lem b bytes valid small =
    let (grown, room, read, write, front) = grow_room b (length bytes) valid small in
    let g = grow b (length bytes) in
    let room' : g.write + length bytes ≤ g.size = rw write room in
    let same : contents g ≡ contents b =
      sym (drop-take g.read g.write g.array)
      ∙ rw (read, write) (ap (drop b.read) front)
      ∙ drop-take b.read b.write b.array in
    (
      filled g bytes,
      rw (copy_lem g bytes (omega (arith, grown.allocated)), append),
      filled-IsValid g bytes grown room',
      contents-filled g bytes grown room' ∙ ap (λ l. l ++ map some bytes) same,
      read,
      omega arith,
    )

-- `Retrieve` succeeds, keeps the readable bytes and moves them to the front.
pub retrieve_lem :
    (b : Buffer)
    → IsValid b
    → (c : Buffer) × (retrieve b ≡ some c)
      × IsValid c
      × (contents c ≡ contents b)
      × (c.read ≡ 0)
      × (c.write ≡ b.write - b.read)
      × (c.size ≡ b.size)
unfolding retrieve readable_length
retrieve_lem b valid =
    let len = sub64 b.write b.read in
    let count : len ≡ b.write - b.read = omega arith in
    elim (Bool-cases (b.read == 0)) [
      | inl front ↦
          let zero_read : b.read ≡ 0 = (==_iff b.read 0).0 front in
          (
            record b { write = len },
            rw front,
            record {
              allocated = valid.allocated;
              ordered = omega arith;
              inside = omega arith;
              small = valid.small;
            },
            ap (λ n. take n (drop b.read b.array)) (omega arith),
            zero_read,
            count,
            refl,
          )
      | inr later ↦
          let moved = take len (drop b.read b.array) in
          let fits : leb (b.read + len) (length b.array) ≡ true =
            le→leb (b.read + len) (length b.array) (omega arith) in
          let whole : length moved ≡ len =
            omega (arith, length-take len (drop b.read b.array), length-drop b.read b.array) in
          let last : len - 0 ≡ len = omega arith in
          (
            record b { array = moved ++ drop len b.array; read = 0; write = len },
            rw (later, fits),
            record {
              allocated =
                  omega (arith, length-append moved (drop len b.array), length-drop len b.array);
              ordered = omega arith;
              inside = omega arith;
              small = valid.small;
            },
            rw last (
                take_prefix len moved (drop len b.array) (omega arith)
                ∙ take_all len moved (omega arith)
                ∙ ap (λ n. take n (drop b.read b.array)) count),
            refl,
            count,
            refl,
          )
    ]
