-- ===== src/Simulation/Session/Final.antt =====
-- The outcome of a command is final along every sequence of `simulate_ioc` calls.
use kairos_execution_engine.Common.{ℕ, ◌≤◌, ◌≡◌, ◌&&◌, true, false, ok, ◌==◌}
use kairos_execution_engine.Simulation.Models.{
  AcceptedBookFrame, IocCommand, FillAssumptions, FillOutcome, LiquidityState, ModelStep,
  same_symbol,
}
use kairos_execution_engine.Simulation.Models.Valid.{coherent_frame}
use kairos_execution_engine.Simulation.Models.Coherent.{is_wait}
use kairos_execution_engine.Simulation.Issues.{Fingerprints}
use kairos_execution_engine.Simulation.Fill.{simulate_ioc}
use kairos_execution_engine.Simulation.Fill.Calls.{simulate_ioc-IsAccepted, simulate_ioc-IsCall}
use kairos_execution_engine.Simulation.Fill.Replay.{
  Answers, call-Answers, call-keeps_Answers, Answers-policy, Answers-replays,
}
use kairos_execution_engine.Simulation.Session.{Reaches, start, call}

Reaches-Answers :
    (h : Fingerprints) (c : IocCommand) (a : FillAssumptions) (o : FillOutcome)
    {s t : LiquidityState}
    → Answers h c a s o
    → Reaches h s t
    → Answers h c a t o
Reaches-Answers h c a o k start = k
Reaches-Answers h c a o k (call {t} c' f' a' as_of m path e) =
    call-keeps_Answers h c' f' a' t as_of c a o m (simulate_ioc-IsAccepted h c' f' a' t as_of m e)
      (simulate_ioc-IsCall h c' f' a' t as_of m e) (Reaches-Answers h c a o k path)

-- A call that returns a terminal outcome is final: on every state `t` that further calls, with
-- whatever commands, frames and assumptions, reach from the state it returns, a call with the same
-- command and assumptions, at a clock that has not gone back and with any coherent frame of the
-- tape and symbol of `t`, returns that outcome as a replay and leaves `t` as it is.
pub simulate_ioc-replays :
    (h : Fingerprints) (c : IocCommand) (f f' : AcceptedBookFrame) (a : FillAssumptions)
    (s t : LiquidityState) (as_of as_of' : ℕ) (m : ModelStep)
    → simulate_ioc h c f a s as_of ≡ ok m
    → is_wait m.outcome.status ≡ false
    → Reaches h m.state t
    → coherent_frame f' ≡ true
    → (f'.tape_id == t.tape_id && same_symbol f'.symbol t.symbol) ≡ true
    → t.last_as_of_ms ≤ as_of'
    → simulate_ioc h c f' a t as_of'
      ≡ ok (record { outcome = m.outcome; state = t; replayed = true })
simulate_ioc-replays h c f f' a s t as_of as_of' m e w path frame tape later =
    let g = simulate_ioc-IsAccepted h c f a s as_of m e in
    let k =
      Reaches-Answers h c a m.outcome
        (call-Answers h c f a s as_of m g (simulate_ioc-IsCall h c f a s as_of m e) w) path in
    Answers-replays h c f' a t as_of' m.outcome
      (record {
        command = g.command;
        frame = frame;
        assumptions = g.assumptions;
        state = k.coherent;
        clock = later;
        session = k.session;
        book = tape;
        policy = Answers-policy h c a t m.outcome k;
      })
      k
