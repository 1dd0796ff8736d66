-- ===== src/Mm/Heap/RoundTrip.antt =====
-- `kfree` after `kalloc`.
use minic_os.Base.{
  ℕ, suc, ◌+◌, ◌^◌, ◌<◌, ◌≤◌, ◌≡◌, refl, sym, ap, subst, ◌∙◌, true, false, List, [], ◌∷◌, ◌++◌,
  some, ◌==◌, length, get_elem?, Bool-cases, inl, inr, arith,
}
use minic_os.Base.Exec.{done}
use minic_os.Mm.Heap.{Block, Heap, Pages, allocated, header_size, round_up, kalloc, kfree}
use minic_os.Mm.Heap.Live.{live, IsValid}
use minic_os.Mm.Heap.Outcomes.{Given, Result, given_block}
use minic_os.Mm.Heap.Kalloc.{kalloc_lem}
use minic_os.Mm.Heap.Absorb.{without}
use minic_os.Mm.Heap.Free.{kfree_lem}

-- The offsets rise, from `lo` on.
abbrev IsRising : ℕ → List (ℕ × ℕ) → Type 0
IsRising lo [] = Unit
IsRising lo ((o, s) ∷ xs) = (lo ≤ o) × IsRising (suc o) xs

weaken : (lo hi : ℕ) (xs : List (ℕ × ℕ)) → lo ≤ hi → IsRising hi xs → IsRising lo xs
weaken lo hi [] le r = tt
weaken lo hi ((o, s) ∷ xs) le (h, r) = (omega arith, r)

live-IsRising : (offset : ℕ) (bs : List Block) → IsRising offset (live offset bs)
live-IsRising offset [] = tt
live-IsRising offset (b ∷ bs) =
    let rest = live-IsRising (offset + header_size + b.size) bs in
    elim (Bool-cases b.free) [
      | inl free ↦ rw free (weaken offset (offset + header_size + b.size) _ (omega arith) rest)
      | inr used ↦
          rw used
            (omega arith, weaken (suc offset) (offset + header_size + b.size) _ (omega arith) rest)
    ]

without_above : (t lo : ℕ) (xs : List (ℕ × ℕ)) → t < lo → IsRising lo xs → without t xs ≡ xs
without_above t lo [] lt r = refl
without_above t lo ((o, s) ∷ xs) lt (h, r) =
    let other : (o == t) ≡ false = ground arith in
    rw other (ap (λ ys. (o, s) ∷ ys) (without_above t (suc o) xs (omega arith) r))

middle-ge :
    (lo o g : ℕ) (before after : List (ℕ × ℕ)) → IsRising lo (before ++ (o, g) ∷ after) → lo ≤ o
middle-ge lo o g [] after (h, r) = h
middle-ge lo o g ((p, s) ∷ before) after (h, r) =
    omega (arith, middle-ge (suc p) o g before after r)

without_middle :
    (lo o g : ℕ) (before after : List (ℕ × ℕ))
    → IsRising lo (before ++ (o, g) ∷ after)
    → without o (before ++ (o, g) ∷ after) ≡ before ++ after
without_middle lo o g [] after (h, r) =
    let here : (o == o) ≡ true = ground arith in
    rw here (without_above o (suc o) after (omega arith) r)
without_middle lo o g ((p, s) ∷ before) after (h, r) =
    let other : (p == o) ≡ false = ground (arith, middle-ge (suc p) o g before after r) in
    rw other (ap (λ ys. (p, s) ∷ ys) (without_middle (suc p) o g before after r))

get_middle :
    (x : ℕ × ℕ) (before after : List (ℕ × ℕ))
    → get_elem? (before ++ x ∷ after) (length before) ≡ some x
get_middle x [] after = refl
get_middle x (y ∷ before) after = get_middle x before after

kfree-Given :
    (size ptr : ℕ) (h h' : Heap)
    → Given h size ptr h'
    → 0 < size
    → (h'' : Heap) × (kfree ptr h' ≡ done h'') × IsValid h'' × (live 0 h''.blocks ≡ live 0 h.blocks)
kfree-Given size ptr h h' g some_byte =
    let a = g.added in
    let here : get_elem? (live 0 h'.blocks) (length a.before) ≡ some (g.offset, g.given) =
      ap (λ xs. get_elem? xs (length a.before)) a.joined
      ∙ get_middle (g.offset, g.given) a.before a.after in
    let (h'', run, v, l) =
      kfree_lem h' (length a.before) g.offset g.given g.valid here (omega (arith, g.enough)) in
    let gone : without g.offset (live 0 h'.blocks) ≡ a.before ++ a.after =
      ap (without g.offset) a.joined
      ∙ without_middle 0 g.offset g.given a.before a.after
          (subst (IsRising 0) a.joined (live-IsRising 0 h'.blocks)) in
    (h'', ap (λ p. kfree p h') g.pointer ∙ run, v, l ∙ gone ∙ sym a.split)

allocated-Given :
    (pages : Pages) (size ptr : ℕ) (h h' : Heap) (st0 st : pages.State)
    → Result pages h st0 size (allocated ptr h' st)
    → Given h size ptr h'
allocated-Given pages size ptr h h' st0 st (given_block _ _ _ g) = g

-- From a valid heap that is initialised, kfree of the pointer that kalloc has given for at least one
-- byte (and less than 2^60) gives the blocks in use that there were before, in a valid heap.
pub kfree-kalloc :
    (pages : Pages) (fuel size ptr : ℕ) (h h' : Heap) (st st' : pages.State)
    → IsValid h
    → h.heap_inited ≡ true
    → 0 < size
    → size < 2 ^ 60
    → 2 ≤ fuel
    → kalloc pages fuel size h st ≡ allocated ptr h' st'
    → (h'' : Heap) × (kfree ptr h' ≡ done h'') × IsValid h'' × (live 0 h''.blocks ≡ live 0 h.blocks)
kfree-kalloc pages fuel size ptr h h' st st' v i some_byte small enough run =
    kfree-Given (round_up size) ptr h h'
      (allocated-Given pages (round_up size) ptr h h' st st' (
        subst (Result pages h st (round_up size)) run
          (kalloc_lem pages fuel size h st v i small enough)))
      (ground arith)
