-- ===== src/Usbip/Pushing.antt =====
-- Pushes of the server that are taken one behind the other, and pushes that are refused.
use embedded_usbip.Prelude.{
  ℕ, ◌+◌, ◌≤◌, ◌<◌, ◌≡◌, refl, ap, sym, subst, ◌∙◌, true, some, List, [], ◌++◌, length,
  length-append, append_assoc, arith, append-nil,
}
use embedded_usbip.StreamFifo.{StreamFifo, IsValid, contents, stream_fifo_push, remaining}
use embedded_usbip.StreamFifo.Contents.{remaining_lem, length-contents}
use embedded_usbip.StreamFifo.Push.{pushed}
use embedded_usbip.StreamFifo.Append.{push-append}
use embedded_usbip.StreamFifo.Refusals.{push_refused_by_contents}
use embedded_usbip.Usbip.{Sent, push_or_fail}

-- The call returns 0, and the fifo holds `more` behind what it held.
abbrev pub Appended : StreamFifo → (more : List ℕ) → Sent → Type 0
Appended q more s =
    (q' : StreamFifo) × (s ≡ some (true, q')) × IsValid q' × (contents q' ≡ contents q ++ more)

pub contents_admitted : (q : StreamFifo) → IsValid q → length (contents q) ≤ remaining q
contents_admitted q v = ground (arith, remaining_lem v, length-contents v)

buffer_len-pushed : (q : StreamFifo) (msg : List ℕ) → (pushed q msg).buffer_len ≡ q.buffer_len
buffer_len-pushed q msg = ground arith

push_or_fail_taken :
    (q q' : StreamFifo) (msg : List ℕ) (rest : StreamFifo → Sent)
    → 0 < length msg
    → stream_fifo_push q msg ≡ some (length msg, q')
    → push_or_fail q (some msg) rest ≡ rest q'
unfolding push_or_fail
push_or_fail_taken q q' msg rest pos e = ground (arith, e, pos)

-- One push that is taken, and then the rest.
pub Appended-push :
    (q : StreamFifo) (msg more : List ℕ) (rest : StreamFifo → Sent)
    → IsValid q
    → 0 < length msg
    → length msg ≤ remaining q
    → length (contents q) + length msg < q.buffer_len
    → ((q' : StreamFifo)
        → IsValid q'
        → q'.buffer_len ≡ q.buffer_len
        → contents q' ≡ contents q ++ msg
        → Appended q' more (rest q'))
    → Appended q (msg ++ more) (push_or_fail q (some msg) rest)
Appended-push q msg more rest v pos fits room go_on =
    let (taken, v', held) = push-append msg v room fits in
    let (q'', ran, v'', held'') = go_on (pushed q msg) v' (buffer_len-pushed q msg) held in
    (
      q'',
      push_or_fail_taken q (pushed q msg) msg rest pos taken ∙ ran,
      v'',
      held'' ∙ ap (λ l. l ++ more) held ∙ append_assoc (contents q) msg more,
    )

pub grown :
    (q q' : StreamFifo) (msg : List ℕ)
    → contents q' ≡ contents q ++ msg
    → length (contents q') ≡ length (contents q) + length msg
grown q q' msg e = ap length e ∙ length-append (contents q) msg

pub Appended-last :
    (q : StreamFifo) (msg : List ℕ)
    → IsValid q
    → 0 < length msg
    → length msg ≤ remaining q
    → length (contents q) + length msg < q.buffer_len
    → Appended q msg (push_or_fail q (some msg) (λ r. some (true, r)))
Appended-last q msg v pos fits room =
    subst (λ l. Appended q l (push_or_fail q (some msg) (λ r. some (true, r)))) (append-nil msg)
      (Appended-push q msg [] (λ r. some (true, r)) v pos fits room
        (λ q' v' same e. (q', refl, v', sym (append-nil (contents q')))))

pub push_or_fail_refused :
    (q : StreamFifo) (msg : List ℕ) (rest : StreamFifo → Sent)
    → IsValid q
    → q.head < q.tail
    → length (contents q) < length msg
    → push_or_fail q (some msg) rest ≡ rest q
unfolding push_or_fail
push_or_fail_refused q msg rest v flat long =
    ground (arith, push_refused_by_contents msg v flat long)
