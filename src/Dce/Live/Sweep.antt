-- ===== src/Dce/Live/Sweep.antt =====
-- The marking loop ends, and leaves the live names closed.
use veripy.Base.{
  ℕ, zero, suc, ◌+◌, ◌≤◌, ◌<◌, ◌≡◌, refl, sym, ◌∙◌, String, Bool, true, false, ◌&&◌, not, List, [],
  ◌∷◌, ◌++◌, map, some, if◌then◌else◌, contains, meets, contains-append_left, contains-append_right,
  length, arith, same, same→eq, Bool-cases, inl, inr, All,
}
use veripy.Ir.{CombBlock, IrModule}
use veripy.Dce.Live.{
  covers, Entry, block_writes, block_reads, unmarked, sweep, mark_live, live_entries, live_names,
}

-- Every element of the first list is in the second.
abbrev pub Within : List String → List String → Type 0
Within xs live = (k : String) → contains xs k ≡ true → contains live k ≡ true

count_unmarked : List Entry → ℕ
count_unmarked [] = 0
count_unmarked (e ∷ es) = (if e.marked then 0 else 1) + count_unmarked es

count-sweep_le :
    (es : List Entry) (live : List String) (ch : Bool)
    → count_unmarked (sweep es live ch).0 ≤ count_unmarked es
unfolding sweep count_unmarked
count-sweep_le [] live ch = omega arith
count-sweep_le (e ∷ es) live ch =
    ground (arith, count-sweep_le es live ch, count-sweep_le es (live ++ block_reads e) true)

-- A sweep that reports a change has marked a block.
count-sweep_lt :
    (es : List Entry) (live : List String)
    → (sweep es live false).2 ≡ true
    → count_unmarked (sweep es live false).0 < count_unmarked es
unfolding sweep count_unmarked
count-sweep_lt [] live h = cc
count-sweep_lt (e ∷ es) live h = ground (
  arith,
  count-sweep_lt es live,
  count-sweep_le es live false,
  count-sweep_le es (live ++ block_reads e) true,
)

-- With more fuel than unmarked blocks the loop ends.
mark_live_total :
    (fuel : ℕ) (es : List Entry) (live : List String)
    → count_unmarked es < fuel
    → (r : List Entry × List String) × (mark_live fuel es live ≡ some r)
unfolding mark_live
mark_live_total zero es live h = absurd (omega arith)
mark_live_total (suc fuel) es live h = elim (Bool-cases (sweep es live false).2) [
  | inl c ↦
      let s = sweep es live false in
      let (r, p) = mark_live_total fuel s.0 s.1 (omega (arith, count-sweep_lt es live c)) in
      (r, rw c p)
  | inr c ↦ (((sweep es live false).0, (sweep es live false).1), rw c refl)
]

count-unmarked : (bs : List CombBlock) → count_unmarked (map unmarked bs) ≡ length bs
unfolding count_unmarked
count-unmarked [] = refl
count-unmarked (b ∷ bs) = omega (arith, count-unmarked bs)

-- The marking loop of every module ends within one round more than the module has blocks.
pub live_entries_total :
    (ir : IrModule) → (r : List Entry × List String) × (live_entries ir ≡ some r)
unfolding live_entries
live_entries_total ir =
    mark_live_total (suc (length ir.comb_blocks)) (map unmarked ir.comb_blocks) (live_names ir)
      (omega (arith, count-unmarked ir.comb_blocks))

pub covers→Within : (live xs : List String) → covers live xs ≡ true → Within xs live
covers→Within live [] h k c = absurd (cc)
covers→Within live (x ∷ xs) h k c = elim (Bool-cases (same x k)) [
  | inl e ↦ rw (← same→eq x k e) (ground arith)
  | inr e ↦ covers→Within live xs (ground arith) k (ground arith)
]

-- A marked block reads live names only.
abbrev pub MarkedOk : List String → Entry → Type 0
MarkedOk live e = e.marked ≡ true → Within (block_reads e) live

abbrev pub UnmarkedOk : List String → Entry → Type 0
UnmarkedOk live e = e.marked ≡ false → meets (block_writes e) live ≡ false

MarkedOk-mono :
    (live live' : List String) (es : List Entry)
    → Within live live'
    → All (MarkedOk live) es
    → All (MarkedOk live') es
MarkedOk-mono live live' [] w h = tt
MarkedOk-mono live live' (e ∷ es) w h =
    ((λ m k c. w k (h.0 m k c)), MarkedOk-mono live live' es w h.1)

sweep-Within : (es : List Entry) (live : List String) (ch : Bool) → Within live (sweep es live ch).1
unfolding sweep
sweep-Within [] live ch k c = c
sweep-Within (e ∷ es) live ch k c = ground (
  arith,
  sweep-Within es live ch k,
  sweep-Within es (live ++ block_reads e) true k,
  contains-append_left live (block_reads e) k,
)

sweep-MarkedOk :
    (es : List Entry) (live : List String) (ch : Bool)
    → All (MarkedOk live) es
    → All (MarkedOk (sweep es live ch).1) (sweep es live ch).0
unfolding sweep
sweep-MarkedOk [] live ch h = tt
sweep-MarkedOk (e ∷ es) live ch h =
    elim (Bool-cases (not e.marked && meets (block_writes e) live)) [
      | inr g ↦
          rw g ((λ m k c. sweep-Within es live ch k (h.0 m k c)), sweep-MarkedOk es live ch h.1)
      | inl g ↦ elim (Bool-cases (covers live (block_reads e))) [
        | inl v ↦
            rw (g, v)
              (
                (λ m k c. sweep-Within es live ch k (covers→Within live (block_reads e) v k c)),
                sweep-MarkedOk es live ch h.1,
              )
        | inr v ↦
            let live' = live ++ block_reads e in
            rw (g, v)
              (
                (λ m k c.
                    sweep-Within es live' true k (contains-append_right live (block_reads e) k c)),
                sweep-MarkedOk es live' true
                    (MarkedOk-mono live live' es (contains-append_left live (block_reads e)) h.1),
              )
      ]
    ]

-- A sweep that began and ended with no change has kept the live names, and leaves out only blocks
-- that write none of them.
sweep-true : (es : List Entry) (live : List String) → (sweep es live true).2 ≡ true
unfolding sweep
sweep-true [] live = refl
sweep-true (e ∷ es) live = ground (arith, sweep-true es live, sweep-true es (live ++ block_reads e))

sweep-unchanged :
    (es : List Entry) (live : List String)
    → (sweep es live false).2 ≡ false
    → ((sweep es live false).1 ≡ live) × All (UnmarkedOk live) (sweep es live false).0
unfolding sweep
sweep-unchanged [] live h = (refl, tt)
sweep-unchanged (e ∷ es) live h = elim (Bool-cases (not e.marked && meets (block_writes e) live)) [
  | inr g ↦ let r = sweep-unchanged es live (rw g at h) in rw g (r.0, ((λ u. ground arith), r.1))
  | inl g ↦ elim (Bool-cases (covers live (block_reads e))) [
    | inl v ↦
        let r = sweep-unchanged es live (rw (g, v) at h) in
        rw (g, v) (r.0, ((λ u. absurd (cc)), r.1))
    | inr v ↦ let q = rw (g, v) at h in absurd (cc (sweep-true es (live ++ block_reads e)))
  ]
]

blocks-sweep :
    (es : List Entry) (live : List String) (ch : Bool)
    → map (λ e. e.block) (sweep es live ch).0 ≡ map (λ e. e.block) es
unfolding sweep
blocks-sweep [] live ch = refl
blocks-sweep (e ∷ es) live ch =
    ground (arith, blocks-sweep es live ch, blocks-sweep es (live ++ block_reads e) true)

-- What the loop returns: the same blocks in order, and a closed set of live names.
pub record Closed (es out : List Entry) (live live' : List String) : Type 0 where
  pub grown : Within live live'
  pub blocks : map (λ e. e.block) out ≡ map (λ e. e.block) es
  pub marked_ok : All (MarkedOk live') out
  pub unmarked_ok : All (UnmarkedOk live') out

mark_live-Closed :
    (fuel : ℕ) (es out : List Entry) (live live' : List String)
    → All (MarkedOk live) es
    → mark_live fuel es live ≡ some (out, live')
    → Closed es out live live'
unfolding mark_live
mark_live-Closed zero es out live live' m h = absurd (cc)
mark_live-Closed (suc fuel) es out live live' m h =
    let s = sweep es live false in
    elim (Bool-cases (sweep es live false).2) [
      | inl c ↦
          let r =
            mark_live-Closed fuel s.0 out s.1 live' (sweep-MarkedOk es live false m) (rw c at h) in
          record {
            grown = λ k x. r.grown k (sweep-Within es live false k x);
            blocks = r.blocks ∙ blocks-sweep es live false;
            marked_ok = r.marked_ok;
            unmarked_ok = r.unmarked_ok;
          }
      | inr c ↦
          let q = rw c at h in
          let u = sweep-unchanged es live c in
          let eo : out ≡ s.0 = cc q in
          let el : live' ≡ live = cc (q, u.0) in
          let el' : live ≡ s.1 = sym (u.0) in
          rw (eo, el)
            (record {
              grown = λ k x. x;
              blocks = blocks-sweep es live false;
              marked_ok = rw u.0 at (sweep-MarkedOk es live false m);
              unmarked_ok = u.1;
            })
    ]

unmarked-MarkedOk :
    (live : List String) (bs : List CombBlock) → All (MarkedOk live) (map unmarked bs)
unmarked-MarkedOk live [] = tt
unmarked-MarkedOk live (b ∷ bs) = ((λ c. absurd (cc)), unmarked-MarkedOk live bs)

pub live_entries-Closed :
    (ir : IrModule) (out : List Entry) (live : List String)
    → live_entries ir ≡ some (out, live)
    → Closed (map unmarked ir.comb_blocks) out (live_names ir) live
unfolding live_entries
live_entries-Closed ir out live h =
    mark_live-Closed (suc (length ir.comb_blocks)) (map unmarked ir.comb_blocks) out (live_names ir)
      live (unmarked-MarkedOk (live_names ir) ir.comb_blocks) h
