-- ===== src/Stream/Server/Turns.antt =====
-- The invariant of the server: whose turn each half is.
use rfsoc.Common.{
  ℕ, zero, suc, ◌+◌, ◌-◌, ◌%◌, ◌≤◌, ◌≡◌, refl, ◌∙◌, inl, inr, Bool, true, false, ◌==◌, arith,
  Bool-cases,
}
use rfsoc.Common.Int.{pos}
use rfsoc.Common.Memory.{Memory}
use rfsoc.Stream.Child.{child_round}
use mathlib.Core.Path.{subst}
use rfsoc.Stream.Child.Laws.{IsLimit, next_half, child_round-IsLimit}
use rfsoc.Stream.Child.Kept.{child_round_parity}
use rfsoc.Stream.Server.{
  Phase, starting, listening, serving, waiting, sending, finished, Server, parent_step, Step, child,
  broken_pipe, parent, hardware, signal, Reach, here, next, Os, initial, start_server,
}

-- What the phase says of the messages read since the last `accept`.
abbrev pub Fits : Phase → ℕ → Type 0
Fits starting since = Unit {0}
Fits listening since = Unit {0}
Fits serving since = since % 2 ≡ 0
Fits (waiting half) since = (since % 2 ≡ half)
Fits (sending half) since = (1 ≤ since) × (suc since % 2 ≡ half)
Fits (finished n) since = Unit {0}

-- The child's next half goes by the number of messages so far, and the parent's by those read since the
-- last `accept`.
pub record Inv (s : Server) : Type 0 where
  pub limited : IsLimit s.shared.limit
  pub turns : next_half s.shared.limit ≡ (s.reads + s.shared.messages) % 2
  pub accepted : s.at_accept ≤ s.reads
  pub fits : Fits s.phase (s.reads - s.at_accept)

Inv-child : (word : ℕ) (s : Server) → Inv s → Inv (record s { shared = child_round word s.shared })
Inv-child word s i = record {
  limited = child_round-IsLimit word s.shared i.limited;
  turns = child_round_parity word s.reads s.shared i.turns;
  accepted = i.accepted;
  fits = i.fits;
}

pub Fits-at : (s : Server) (p : Phase) → s.phase ≡ p → Inv s → Fits p (s.reads - s.at_accept)
Fits-at s p e i = subst (λ q. Fits q (s.reads - s.at_accept)) e i.fits

sub_self : (n : ℕ) → (n - n) % 2 ≡ 0
sub_self n = omega arith

-- The parent at its `read`, by the number of messages in the pipe.
abbrev pub at_read : ℕ → ℕ → Server → Server
at_read half m s = elim m [
  | zero ↦ s
  | suc n ↦ record s {
    shared = record s.shared { messages = n };
    phase = sending half;
    reads = suc s.reads;
  }
]

Inv-at_read :
    (s : Server) (m : ℕ)
    → s.shared.messages ≡ m
    → (half : ℕ) → (s.reads - s.at_accept) % 2 ≡ half
    → Inv s
    → Inv (at_read half m (record s { phase = waiting half }))
Inv-at_read s zero e half fit i = record {
  limited = i.limited;
  turns = i.turns;
  accepted = i.accepted;
  fits = fit;
}
Inv-at_read s (suc n) e half fit i =
    let accepted = i.accepted in
    let turns = i.turns in
    record {
      limited = i.limited;
      turns = turns ∙ rw e (omega arith);
      accepted = omega arith;
      fits = (omega arith, omega arith);
    }

parent_in : (ok : Bool) (s : Server) (p : Phase) → s.phase ≡ p → Inv s → Inv (parent_step ok s)
unfolding parent_step
parent_in ok s starting e i = elim (Bool-cases s.interrupted) [
  | inl y ↦
      rw (e, y) (record { limited = i.limited; turns = i.turns; accepted = i.accepted; fits = tt })
  | inr n ↦
      rw (e, n) (record { limited = i.limited; turns = i.turns; accepted = i.accepted; fits = tt })
]
parent_in true s listening e i = rw e (record {
  limited = i.limited;
  turns = i.turns;
  accepted = omega arith;
  fits = sub_self s.reads;
})
parent_in false s listening e i =
    rw e (record { limited = i.limited; turns = i.turns; accepted = i.accepted; fits = tt })
parent_in ok s serving e i = elim (Bool-cases s.interrupted) [
  | inl y ↦
      rw (e, y) (record { limited = i.limited; turns = i.turns; accepted = i.accepted; fits = tt })
  | inr n ↦
      rw (e, n)
        (record {
          limited = i.limited;
          turns = i.turns;
          accepted = i.accepted;
          fits = Fits-at s serving e i;
        })
]
parent_in ok s (waiting half) e i =
    rw e (Inv-at_read s s.shared.messages refl half (Fits-at s (waiting half) e i) i)
parent_in true s (sending half) e i =
    let (some_read, turn) = Fits-at s (sending half) e i in
    elim (Bool-cases (half == 0)) [
      | inl y ↦
          rw (e, y)
            (record {
              limited = i.limited;
              turns = i.turns;
              accepted = i.accepted;
              fits = grind arith;
            })
      | inr n ↦
          rw (e, n)
            (record {
              limited = i.limited;
              turns = i.turns;
              accepted = i.accepted;
              fits = grind arith;
            })
    ]
parent_in false s (sending half) e i =
    rw e (record { limited = i.limited; turns = i.turns; accepted = i.accepted; fits = tt })
parent_in ok s (finished n) e i =
    rw e (record { limited = i.limited; turns = i.turns; accepted = i.accepted; fits = tt })

Inv-parent : (ok : Bool) (s : Server) → Inv s → Inv (parent_step ok s)
Inv-parent ok s i = parent_in ok s s.phase refl i

Step-Inv : {s t : Server} → Step s t → Inv s → Inv t
Step-Inv {s = s} (child word runs pipe) i = Inv-child word s i
Step-Inv (broken_pipe word runs pipe) i = record {
  limited = i.limited;
  turns = i.turns;
  accepted = i.accepted;
  fits = i.fits;
}
Step-Inv {s = s} (parent ok) i = Inv-parent ok s i
Step-Inv (hardware m) i = record {
  limited = i.limited;
  turns = i.turns;
  accepted = i.accepted;
  fits = i.fits;
}
Step-Inv (signal handled) i = record {
  limited = i.limited;
  turns = i.turns;
  accepted = i.accepted;
  fits = i.fits;
}

pub Reach-Inv : {s t : Server} → Reach s t → Inv s → Inv t
Reach-Inv here i = i
Reach-Inv (next r x) i = Step-Inv x (Reach-Inv r i)

Inv-initial :
    (p : Phase) (b : Bool) (cfg ram buf : Memory)
    → Fits p 0
    → Inv (record (initial cfg ram buf) { phase = p; child_runs = b })
Inv-initial p b cfg ram buf fit = record {
  limited = inl refl;
  turns = refl;
  accepted = omega arith;
  fits = fit;
}

start_server-Inv_of :
    (a b c d : Bool) (cfg ram buf : Memory)
    → Inv
        (start_server (record { opens = a; fork_fails = b; has_socket = c; binds = d }) cfg ram buf)
unfolding start_server
start_server-Inv_of true true c d cfg ram buf = Inv-initial (finished (pos 0)) false cfg ram buf tt
start_server-Inv_of true false true true cfg ram buf = Inv-initial starting true cfg ram buf tt
start_server-Inv_of true false true false cfg ram buf =
    Inv-initial (finished (pos 1)) true cfg ram buf tt
start_server-Inv_of true false false d cfg ram buf =
    Inv-initial (finished (pos 1)) true cfg ram buf tt
start_server-Inv_of false b c d cfg ram buf = Inv-initial (finished (pos 1)) false cfg ram buf tt

pub start_server-Inv : (os : Os) (cfg ram buf : Memory) → Inv (start_server os cfg ram buf)
start_server-Inv os cfg ram buf =
    start_server-Inv_of os.opens os.fork_fails os.has_socket os.binds cfg ram buf
