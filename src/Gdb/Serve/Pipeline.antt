-- ===== src/Gdb/Serve/Pipeline.antt =====
-- The loop on a buffer of whole packets.
use mathlib.Core.List.{append_assoc, append-nil}
use veripy.Base.{
  ℕ, zero, suc, ◌+◌, ◌-◌, ◌≡◌, ◌<◌, refl, ap, ◌∙◌, subst, false, List, [], ◌∷◌, ◌++◌, some, leb,
  length, take, drop, count, All, arith, length-append, take-append, drop-append,
}
use veripy.Gdb.Text.{Text, find_from, slice_text}
use veripy.Gdb.Packet.{checksum, encode, decode, decode-encode, end_of}
use veripy.Gdb.Stub.{CpuInterface, Answer, reply, no_reply, raises, Machine, dispatch}
use veripy.Gdb.Serve.{Served, answer, packet_turn, end_turn, turn, after_turn, serve}

length-encode : (p : Text) → length (encode p) ≡ length p + 4
length-encode p = omega (arith, length-append p (35 ∷ checksum p))

module _ {S : Type 0} (cpu : CpuInterface S) (w : ℕ) where
  whole_turn :
      (m : Machine S) (buf : Text) (e : ℕ) (p rest : Text)
      → leb (length buf) (e + 2) ≡ false
      → drop (e + 3) buf ≡ rest
      → decode (slice_text buf 0 (e + 3)) ≡ some p
      → end_turn cpu w m buf 0 (some e) ≡ answer cpu w rest (dispatch cpu w m p)
  unfolding end_turn dispatch
  whole_turn m buf e p rest long later decoded = rw long (
      ap (λ r. packet_turn cpu w m r (decode (slice_text buf 0 (e + 3)))) later
      ∙ ap (packet_turn cpu w m rest) decoded)

  -- A packet at the front of the buffer is taken off and dispatched.
  pub turn-encode :
      (m : Machine S) (p rest : Text)
      → count 35 p ≡ 0
      → turn cpu w m (encode p ++ rest) ≡ answer cpu w rest (dispatch cpu w m p)
  unfolding turn
  turn-encode m p rest h =
      let buf = encode p ++ rest in
      let len : length buf ≡ length p + 4 + length rest =
        omega (arith, length-encode p, length-append (encode p) rest) in
      let found : find_from 35 1 buf ≡ some (suc (length p)) =
        ap (find_from 35 1) (ap (λ l. 36 ∷ l) (append_assoc p (35 ∷ checksum p) rest))
        ∙ end_of p (checksum p ++ rest) h in
      let long : leb (length buf) (suc (length p) + 2) ≡ false = ground (arith, len) in
      let packet : slice_text buf 0 (suc (length p) + 3) ≡ encode p =
        ap (λ k. take k buf) {x = suc (length p) + 3 - 0} {y = length (encode p)}
          (omega (arith, length-encode p))
        ∙ take-append (encode p) rest in
      let later : drop (suc (length p) + 3) buf ≡ rest =
        ap (λ k. drop k buf) {x = suc (length p) + 3} {y = length (encode p)}
          (omega (arith, length-encode p))
        ∙ drop-append (encode p) rest in
      let decoded : decode (encode p) ≡ some p =
        subst (λ l. decode l ≡ some p) (append-nil (encode p)) (decode-encode p [] h) in
      ap (end_turn cpu w m buf 0) found
      ∙ whole_turn m buf (suc (length p)) p rest long later (ap decode packet ∙ decoded)

  abbrev pub packets : List Text → Text
  packets [] = []
  packets (p ∷ ps) = encode p ++ packets ps

  -- The requests one after the other, without packets and buffers.
  abbrev pub requests : Machine S → List Text → Served S
  requests m [] = record { machine = m; sent = []; buf = []; failed = false }
  requests m (p ∷ ps) =
      after_turn cpu w (λ m' rest. requests m' ps) m (answer cpu w [] (dispatch cpu w m p))

  -- What follows an answer.
  after-answer :
      (go go' : Machine S → Text → Served S) (m : Machine S) (rest rest' : Text)
      (a : Machine S × Answer)
      → ((m' : Machine S) → go m' rest ≡ go' m' rest')
      → after_turn cpu w go m (answer cpu w rest a) ≡ after_turn cpu w go' m (answer cpu w rest' a)
  after-answer go go' m rest rest' (m', reply t) h =
      ap (λ (r : Served S). record r { sent = (43 ∷ encode t) ++ r.sent }) (h m')
  after-answer go go' m rest rest' (m', no_reply) h =
      ap (λ (r : Served S). record r { sent = (43 ∷ []) ++ r.sent }) (h m')
  after-answer go go' m rest rest' (m', raises) h = refl

  -- A buffer of whole packets, none with a `#` in its content, is served like the requests one after
  -- the other, with as much fuel as there are packets, and one more.
  pub serve-requests :
      (fuel : ℕ) (m : Machine S) (ps : List Text)
      → All (λ p. count 35 p ≡ 0) ps
      → length ps < fuel
      → serve cpu w fuel m (packets ps) ≡ requests m ps
  unfolding serve
  serve-requests zero m ps h lt = absurd (omega arith)
  serve-requests (suc fuel) m [] h lt = refl
  serve-requests (suc fuel) m (p ∷ ps) h lt =
      ap (after_turn cpu w (serve cpu w fuel) m) (turn-encode m p (packets ps) h.0)
      ∙ after-answer (serve cpu w fuel) (λ m' rest. requests m' ps) m (packets ps) []
          (dispatch cpu w m p) (λ m'. serve-requests fuel m' ps h.1 (omega arith))
