-- ===== src/Usb/Descriptor/Blocks.antt =====
-- What the iterator of kernel/src/usb/descriptor.rs makes of descriptors that stand one behind another.
use mathlib.Core.List.{append-nil, append_assoc}
use lemola_osv.Base.{
  ℕ, suc, ◌+◌, ◌-◌, ◌<◌, ◌≡◌, ◌∙◌, ◌⊎◌, refl, ap, sym, List, [], ◌∷◌, ◌++◌, none, some, ok, panic,
  word, length, length-append, get_elem?, get_elem?-none, take, drop, arith, map, length-take,
  dec_lt,
}
use lemola_osv.Usb.Descriptor.{
  DescriptorType, DescriptorRef, DescriptorIter, new, slice, of_type, new_ref, next, collect,
}

drop-append : (xs ys : List ℕ) → drop (length xs) (xs ++ ys) ≡ ys
drop-append [] ys = refl
drop-append (x ∷ xs) ys = drop-append xs ys

take-append : (xs ys : List ℕ) → take (length xs) (xs ++ ys) ≡ xs
take-append [] ys = refl
take-append (x ∷ xs) ys = ap (λ r. x ∷ r) (take-append xs ys)

get_elem?-behind : (xs ys : List ℕ) (i : ℕ) → get_elem? (xs ++ ys) (length xs + i) ≡ get_elem? ys i
get_elem?-behind [] ys i = let e : 0 + i ≡ i = omega arith in rw e refl
get_elem?-behind (x ∷ xs) ys i =
    let e : suc (length xs) + i ≡ suc (length xs + i) = omega arith in
    rw e (get_elem?-behind xs ys i)

-- A descriptor: its first byte is its length, and its second byte is there.
pub record IsBlock (bytes : List ℕ) : Type 0 where
  pub type_of : ℕ
  pub rest : List ℕ
  pub bytes_of : bytes ≡ suc (suc (length rest)) ∷ type_of ∷ rest

abbrev pub AllBlocks : List (List ℕ) → Type 0
AllBlocks [] = Unit {0}
AllBlocks (b ∷ bs) = IsBlock b × AllBlocks bs

abbrev pub joined : List (List ℕ) → List ℕ
joined [] = []
joined (b ∷ bs) = b ++ joined bs

module _ (try_from : ℕ → DescriptorType) where
  -- The descriptor that a block holds.
  pub described : List ℕ → DescriptorRef
  described [] = DescriptorRef.unknown
  described (l ∷ []) = DescriptorRef.unknown
  described (l ∷ t ∷ rest) = of_type try_from (try_from t) (l ∷ t ∷ rest)

  pub next_block :
      (before bytes behind : List ℕ)
      → IsBlock bytes
      → length (before ++ (bytes ++ behind)) < word
      → next try_from (record { bytes = before ++ (bytes ++ behind); read_bytes = length before })
        ≡ ok (
          some (described bytes),
          record { bytes = before ++ (bytes ++ behind); read_bytes = length (before ++ bytes) },
        )
  unfolding next slice new_ref described
  next_block before bytes behind v small =
      let len = length-append before (bytes ++ behind) in
      let len2 = length-append bytes behind in
      let len3 = length-append before bytes in
      let size : length bytes ≡ suc (suc (length v.rest)) = ap length v.bytes_of in
      let zero_in : length before + 0 ≡ length before = omega arith in
      let first : get_elem? (before ++ (bytes ++ behind)) (length before) ≡ some (length bytes) =
        rw zero_in at (get_elem?-behind before (bytes ++ behind) 0)
        ∙ ap (λ b. get_elem? (b ++ behind) 0) v.bytes_of
        ∙ ap some (sym size) in
      let span : length before + length bytes - length before ≡ length bytes = omega arith in
      let cut : take (length before + length bytes - length before)
            (drop (length before) (before ++ (bytes ++ behind)))
          ≡ bytes =
        rw (span, drop-append before (bytes ++ behind)) (take-append bytes behind) in
      let second : get_elem? bytes 1 ≡ some v.type_of = ap (λ b. get_elem? b 1) v.bytes_of in
      let shape : described bytes ≡ of_type try_from (try_from v.type_of) bytes =
        rw v.bytes_of refl in
      ground (arith, first, cut, second, shape, len, len2, len3, size)

  pub next_end :
      (bytes : List ℕ)
      → next try_from (record { bytes = bytes; read_bytes = length bytes })
        ≡ ok (none, record { bytes = bytes; read_bytes = length bytes })
  unfolding next
  next_end bytes = ground arith

  collect_behind :
      (before : List ℕ) (blocks : List (List ℕ))
      → AllBlocks blocks
      → length (before ++ joined blocks) < word
      → collect try_from
          (length blocks + 1)
          (record { bytes = before ++ joined blocks; read_bytes = length before })
        ≡ ok (map described blocks)
  unfolding collect
  collect_behind before [] v small = rw (append-nil before) (simp (next_end before) refl)
  collect_behind before (b ∷ blocks) (v, vs) small =
      let more : suc (length blocks) + 1 ≡ suc (length blocks + 1) = omega arith in
      let run = next_block before b (joined blocks) v small in
      let same : before ++ (b ++ joined blocks) ≡ (before ++ b) ++ joined blocks =
        sym (append_assoc before b (joined blocks)) in
      let rest : collect try_from (length blocks + 1)
            (record { bytes = before ++ (b ++ joined blocks); read_bytes = length (before ++ b) })
          ≡ ok (map described blocks) =
        rw same (collect_behind (before ++ b) blocks vs (rw same at small)) in
      simp (more, run, rest) refl

  -- Descriptors that stand one behind another, each with its own length in its first byte and with a
  -- second byte, are iterated in their order, and the iterator ends behind the last.
  pub collect-joined :
      (blocks : List (List ℕ))
      → AllBlocks blocks
      → length (joined blocks) < word
      → collect try_from (length blocks + 1) (new (joined blocks)) ≡ ok (map described blocks)
  collect-joined blocks v small = collect_behind [] blocks v small

  -- A first byte below 2, or one that leads beyond the end of the bytes, makes `next` panic.
  pub next_malformed :
      (it : DescriptorIter) (l : ℕ)
      → get_elem? it.bytes it.read_bytes ≡ some l
      → (l < 2) ⊎ (length it.bytes < it.read_bytes + l)
      → next try_from it ≡ panic
  unfolding next slice new_ref
  next_malformed it l held bad = elim (dec_lt it.read_bytes (length it.bytes)) [
    | yes here ↦
        let part = take (it.read_bytes + l - it.read_bytes) (drop it.read_bytes it.bytes) in
        let size = length-take (it.read_bytes + l - it.read_bytes) (drop it.read_bytes it.bytes) in
        elim (dec_lt l 2) [
          | yes short ↦
              let gone = get_elem?-none part 1 (omega (arith, size)) in
              ground (arith, held, gone, here)
          | no long ↦ ground (arith, held, here, bad, long)
        ]
    | no beyond ↦
        let gone = get_elem?-none it.bytes it.read_bytes (omega arith) in
        absurd (ground (arith, held, gone))
  ]
