-- ===== src/Ip/SyncFifo/Refine.antt =====
-- A queue of a depth 2^k against a bounded list of words.
use native.Mathlib.Nat.{mod-add-mod, mod-mod}
use veripy.Base.{
  ℕ, suc, ◌+◌, ◌-◌, ◌%◌, ◌^◌, ◌<◌, ◌≤◌, ◌≡◌, ◌≢◌, refl, sym, ap, ◌∙◌, Bool, true, false, ◌&&◌, not,
  List, [], ◌∷◌, ◌++◌, ◌==◌, length, ◌⊎◌, bit_and, ==_iff, length-set, length-replicate, set, arith,
  if◌then◌else◌, tail, Bool-cases, inl, inr,
}
use veripy.Base.Bits.{bit_and-mask, bit_length, bit_length-mask, mod-bit_length}
use veripy.Ip.SyncFifo.{SyncFifo, Input, init, update, slot, ptr_bits, cnt_bits, pushes, pops}
use veripy.Ip.SyncFifo.Queue.{
  stored, stored_cong, next-mod, stored-set, stored-set_past, length-stored, wrap-mod,
}

-- The pointers are apart by the count, at the depth.
abbrev pub IsValid : ℕ → SyncFifo → Type 0
IsValid k f =
    f.depth ≡ 2 ^ k
    × length f.mem ≡ 2 ^ k
    × f.cnt ≤ 2 ^ k
    × (f.rptr + f.cnt) % 2 ^ k ≡ f.wptr % 2 ^ k

abbrev pub contents : SyncFifo → List ℕ
contents f = stored f.mem f.depth f.rptr f.cnt

-- A queue of at most `depth` words.
abbrev pub step_queue : ℕ → ℕ → List ℕ → Input → List ℕ
step_queue depth width q i =
    let kept = if i.pop then tail q else q in
    if i.reset
    then []
    else (if i.push && not (length q == depth) then kept ++ (i.din % 2 ^ width ∷ []) else kept)

pub slot-mod : (k : ℕ) (f : SyncFifo) (p : ℕ) → f.depth ≡ 2 ^ k → slot f p ≡ p % f.depth
unfolding slot
slot-mod k f p e =
    ap (λ d. bit_and p (d - 1) % d) e
    ∙ (ap (λ x. x % 2 ^ k) (bit_and-mask k p) ∙ (mod-mod p (2 ^ k) ∙ ap (λ d. p % d) (sym e)))

-- The pointers have one bit more than an address.
ptr_bits-eq : (k : ℕ) (f : SyncFifo) → f.depth ≡ 2 ^ k → ptr_bits f ≡ k + 1
ptr_bits-eq k f e = ap (λ d. bit_length (d - 1) + 1) e ∙ ap (λ b. b + 1) (bit_length-mask k)

next_ptr : (k : ℕ) (f : SyncFifo) (p : ℕ) → f.depth ≡ 2 ^ k → p % 2 ^ ptr_bits f % 2 ^ k ≡ p % 2 ^ k
next_ptr k f p e = ap (λ b. p % 2 ^ b % 2 ^ k) (ptr_bits-eq k f e) ∙ wrap-mod k p

-- The count does not wrap.
cnt-fits : (f : SyncFifo) (n : ℕ) → n ≤ f.depth → n % 2 ^ cnt_bits f ≡ n
cnt-fits f n h = mod-bit_length f.depth n h

at_end : (k : ℕ) (f : SyncFifo) → IsValid k f → slot f f.wptr ≡ (f.rptr + f.cnt) % f.depth
at_end k f v =
    let (ed, el, hc, ep) = v in
    slot-mod k f f.wptr ed
    ∙ (ap (λ y. f.wptr % y) ed ∙ (sym ep ∙ ap (λ y. (f.rptr + f.cnt) % y) (sym ed)))

stored-push :
    (k w : ℕ) (f : SyncFifo)
    → IsValid k f
    → f.cnt < 2 ^ k
    → stored (set f.mem (slot f f.wptr) w) f.depth f.rptr (f.cnt + 1) ≡ contents f ++ (w ∷ [])
stored-push k w f v lt =
    let (ed, el, hc, ep) = v in
    let d = f.depth in
    ap (λ n. stored (set f.mem (slot f f.wptr) w) d f.rptr n) {y = suc f.cnt} (omega arith)
    ∙ stored-set f.mem d w f.cnt f.rptr (slot f f.wptr) (el ∙ sym ed) (omega (arith, ed))
        (at_end k f v)

stored-pop :
    (k : ℕ) (mem : List ℕ) (f : SyncFifo) (n : ℕ)
    → f.depth ≡ 2 ^ k
    → stored mem f.depth ((f.rptr + 1) % 2 ^ ptr_bits f) n
      ≡ tail (stored mem f.depth f.rptr (suc n))
stored-pop k mem f n e = stored_cong mem f.depth ((f.rptr + 1) % 2 ^ ptr_bits f) (f.rptr + 1) n (
    ap (λ d. (f.rptr + 1) % 2 ^ ptr_bits f % d) e
    ∙ (next_ptr k f (f.rptr + 1) e ∙ ap (λ d. (f.rptr + 1) % d) (sym e)))

pub init-IsValid : (width k : ℕ) → IsValid k (init width (2 ^ k))
unfolding init
init-IsValid width k = (refl, length-replicate (2 ^ k) 0, omega arith, refl)

pub update-depth : (f : SyncFifo) (i : Input) → (update f i).depth ≡ f.depth
unfolding update
update-depth f i = elim (Bool-cases i.reset) [ inl r ↦ rw r refl | inr r ↦ rw r refl ]

pub update-width : (f : SyncFifo) (i : Input) → (update f i).width ≡ f.width
unfolding update
update-width f i = elim (Bool-cases i.reset) [ inl r ↦ rw r refl | inr r ↦ rw r refl ]

not-eq : (push : Bool) (a b : ℕ) → push && not (a == b) ≡ true → a ≢ b
not-eq true a b h e = grind (arith, ==_iff a b)
not-eq false a b h e = absurd cc

not-pops : (pop : Bool) (a : ℕ) → pop && not (a == 0) ≡ false → (pop ≡ false) ⊎ (a ≡ 0)
not-pops true a h = inr (grind (arith, ==_iff a 0))
not-pops false a h = inl refl

update-push :
    (k : ℕ) (f : SyncFifo) (i : Input)
    → IsValid k f
    → i.reset ≡ false
    → pushes f i.push ≡ true
    → pops f i.pop ≡ false
    → (contents (update f i) ≡ contents f ++ (i.din % 2 ^ f.width ∷ [])) × IsValid k (update f i)
unfolding update
update-push k f i v r p q =
    let (ed, el, hc, ep) = v in
    let d = 2 ^ k in
    let lt : f.cnt < d = omega (arith, not-eq i.push f.cnt f.depth p, ed) in
    rw (r, p, q, cnt-fits f (f.cnt + 1) (omega (arith, ed)))
      (
        stored-push k (i.din % 2 ^ f.width) f v lt,
        (
          ed,
          length-set f.mem (slot f f.wptr) (i.din % 2 ^ f.width) ∙ el,
          omega arith,
          ap (λ x. x % d) (omega arith)
              ∙ (next-mod d (f.rptr + f.cnt) f.wptr ep ∙ sym (next_ptr k f (f.wptr + 1) ed)),
        ),
      )

update-pop :
    (k : ℕ) (f : SyncFifo) (i : Input)
    → IsValid k f
    → i.reset ≡ false
    → pushes f i.push ≡ false
    → pops f i.pop ≡ true
    → (contents (update f i) ≡ tail (contents f)) × IsValid k (update f i)
unfolding update
update-pop k f i v r p q =
    let (ed, el, hc, ep) = v in
    let d = 2 ^ k in
    let ne : f.cnt ≢ 0 = not-eq i.pop f.cnt 0 q in
    let c = f.cnt - 1 in
    rw (r, p, q, cnt-fits f c (omega (arith, ed)))
      (
        stored-pop k f.mem f c ed
            ∙ ap (λ n. tail (stored f.mem f.depth f.rptr n)) {x = suc c} {y = f.cnt} (omega arith),
        (
          ed,
          el,
          omega arith,
          sym (mod-add-mod ((f.rptr + 1) % 2 ^ ptr_bits f) d c)
              ∙ (ap (λ x. (x + c) % d) (next_ptr k f (f.rptr + 1) ed)
                  ∙ (mod-add-mod (f.rptr + 1) d c
                      ∙ (ap (λ x. x % d) {x = f.rptr + 1 + c} (omega arith) ∙ ep))),
        ),
      )

update-idle :
    (f : SyncFifo) (i : Input)
    → i.reset ≡ false
    → pushes f i.push ≡ false
    → pops f i.pop ≡ false
    → update f i ≡ f
unfolding update
update-idle f i r p q = rw (r, p, q) refl

step_queue-eq :
    (f : SyncFifo) (i : Input)
    → i.reset ≡ false
    → step_queue f.depth f.width (contents f) i ≡ (
        let kept = if i.pop then tail (contents f) else contents f in
        if pushes f i.push then kept ++ (i.din % 2 ^ f.width ∷ []) else kept)
step_queue-eq f i r = rw (r, length-stored f.mem f.depth f.rptr f.cnt) refl

-- A pop that takes no effect leaves the queue, which then is empty.
kept-idle :
    (f : SyncFifo) (pop : Bool)
    → pops f pop ≡ false
    → (if pop then tail (contents f) else contents f) ≡ contents f
kept-idle f true q = let c : f.cnt ≡ 0 = grind (arith, ==_iff f.cnt 0) in rw c refl
kept-idle f false q = refl

kept-pop :
    (f : SyncFifo) (pop : Bool)
    → pops f pop ≡ true
    → (if pop then tail (contents f) else contents f) ≡ tail (contents f)
kept-pop f true q = refl
kept-pop f false q = absurd cc

no-push : (p q : Bool) → q ≡ true → p && q ≡ false → p ≡ false
no-push true q e h = absurd cc
no-push false q e h = refl

update-reset :
    (k : ℕ) (f : SyncFifo) (i : Input)
    → IsValid k f
    → i.reset ≡ true
    → (contents (update f i) ≡ step_queue f.depth f.width (contents f) i) × IsValid k (update f i)
unfolding update
update-reset k f i v r = let (ed, el, hc, ep) = v in rw r (refl, (ed, el, omega arith, refl))

-- On a well-formed queue of a depth 2 ^ k, a step in which a push and a pop do not both take effect is
-- the step of a bounded list of words, and leaves a well-formed queue.
pub update-refines :
    (k : ℕ) (f : SyncFifo) (i : Input)
    → IsValid k f
    → pushes f i.push && pops f i.pop ≡ false
    → (contents (update f i) ≡ step_queue f.depth f.width (contents f) i) × IsValid k (update f i)
update-refines k f i v one = elim (Bool-cases i.reset) [
  | inl r ↦ update-reset k f i v r
  | inr r ↦ rw (step_queue-eq f i r) (elim (Bool-cases (pops f i.pop)) [
    | inl q ↦
        let p : pushes f i.push ≡ false = no-push (pushes f i.push) (pops f i.pop) q one in
        rw (p, kept-pop f i.pop q) (update-pop k f i v r p q)
    | inr q ↦ rw (kept-idle f i.pop q) (elim (Bool-cases (pushes f i.push)) [
      | inl p ↦ rw p (update-push k f i v r p q)
      | inr p ↦ rw (p, update-idle f i r p q) (refl, v)
    ])
  ])
]

-- In a step without reset in which a push and a pop both take effect, a well-formed queue of a depth
-- 2 ^ k loses its first word and does not gain the pushed one.
pub update-loses_push :
    (k : ℕ) (f : SyncFifo) (i : Input)
    → IsValid k f
    → i.reset ≡ false
    → pushes f i.push ≡ true
    → pops f i.pop ≡ true
    → contents (update f i) ≡ tail (contents f)
unfolding update
update-loses_push k f i v r p q =
    let (ed, el, hc, ep) = v in
    let d = f.depth in
    let c = f.cnt - 1 in
    let m = set f.mem (slot f f.wptr) (i.din % 2 ^ f.width) in
    let ne : f.cnt ≢ 0 = not-eq i.pop f.cnt 0 q in
    let lt : f.cnt < d = omega (arith, not-eq i.push f.cnt f.depth p, ed) in
    rw (r, p, q, cnt-fits f c (omega (arith, ed)))
      (stored-pop k m f c ed
        ∙ (ap (λ n. tail (stored m d f.rptr n)) {x = suc c} {y = f.cnt} (omega arith)
            ∙ ap tail (
                stored-set_past f.mem d (i.din % 2 ^ f.width) f.cnt f.rptr (slot f f.wptr) lt
                  (at_end k f v))))
