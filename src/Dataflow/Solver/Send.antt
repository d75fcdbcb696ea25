-- ===== src/Dataflow/Solver/Send.antt =====
-- One state sent along one edge: what it records, what it queues, and what it leaves alone.
use coretrace_python_analyze.Cfg.{BlockId}
use coretrace_python_analyze.Dataflow.Solver.{
  Problem, Solving, arriving, unchanged, enqueue, send, edge,
}
use coretrace_python_analyze.Base.{
  ==_iff, Option, [], arith, contains, contains-add, get-put, get_or-put, if◌then◌else◌, list_eq,
  nat_eq, none, option_eq, pair_eq, put, some, string_eq, true, ◌&&◌, ◌==◌, ◌||◌, ◌≡◌, ◌⊎◌,
}

module _ {S : Type 0} (p : Problem S) where
  -- The state that an edge holds after `state` was sent along it.
  abbrev pub settled : Option S → S → S
  settled none state = state
  settled (some old) state = if p.same old state then old else state

  pub incoming-enqueue : (t : BlockId) (s : Solving S) → (enqueue p t s).incoming ≡ s.incoming
  unfolding enqueue
  incoming-enqueue t s = ground arith

  contains-queued-enqueue :
      (t c : BlockId) (s : Solving S)
      → contains (enqueue p t s).queued c ≡ (c == t || contains s.queued c)
  unfolding enqueue
  contains-queued-enqueue t c s = ground (arith, contains-add t c s.queued, ==_iff c t)

  pub edge-send :
      (block target b t : BlockId) (state : S) (s : Solving S)
      → edge p (send p block (target, state) s).incoming b t ≡ (
          if t == target && b == block
          then some (settled (edge p s.incoming block target) state)
          else edge p s.incoming b t)
  unfolding send unchanged edge
  edge-send block target b t state s =
      let edges = arriving s.incoming target in
      let sent = record s { incoming = put target (put block state edges) s.incoming } in
      ground (
        arith,
        incoming-enqueue target sent,
        get_or-put target t edges [] s.incoming,
        get_or-put target t (put block state edges) [] s.incoming,
        get-put block b state edges,
        ==_iff t target,
        ==_iff b block,
      )

  pub arriving-send :
      (block target c : BlockId) (state : S) (s : Solving S)
      → (arriving (send p block (target, state) s).incoming c ≡ arriving s.incoming c)
        ⊎ (contains (send p block (target, state) s).queued c ≡ true)
  unfolding send unchanged
  arriving-send block target c state s =
      let edges = arriving s.incoming target in
      let sent = record s { incoming = put target (put block state edges) s.incoming } in
      ground (
        arith,
        incoming-enqueue target sent,
        contains-queued-enqueue target c sent,
        get_or-put target c edges [] s.incoming,
        get_or-put target c (put block state edges) [] s.incoming,
        ==_iff c target,
      )

  pub queued-send :
      (block target c : BlockId) (state : S) (s : Solving S)
      → contains s.queued c ≡ true
      → contains (send p block (target, state) s).queued c ≡ true
  unfolding send
  queued-send block target c state s h = ground (
    arith,
    contains-queued-enqueue target c (record s {
      incoming = put target (put block state (arriving s.incoming target)) s.incoming;
    }),
  )
