-- ===== src/Gateway/Transaction/Laws.antt =====
-- What the handler of /process promises (cmd/gateway/main.go).
use mathlib.Core.Path.{subst}
use edge_gw_project.Prelude.{
  ◌⊎◌, arith, sym, ◌+◌, ◌≡◌, ◌≢◌, refl, inl, inr, true, Option, none, some, Text,
}
use edge_gw_project.Prelude.{Bool-cases, Option-cases}
use edge_gw_project.Processor.Outside.{Floats, Toolkit}
use edge_gw_project.Processor.Signal.{RawData, Settings, anonymize_signal}
use edge_gw_project.Spool.Name.{spool_name}
use edge_gw_project.Spool.Dir.{read_file, pending_names}
use edge_gw_project.Spool.Outcome.{enqueue_failed_unchanged}
use edge_gw_project.Spool.Queue.{Hook, Spool, EnqueueError, enqueue}
use edge_gw_project.Spool.Commit.{is_committed, enqueue-read}
use edge_gw_project.Gateway.Transaction.{
  Counters, Gateway, Response, Request, Wire, process_inbound_request, fallback_of, note_sentinel,
  after_enqueue, queue_signal, process_valid, process_transaction,
}

module _ {F : Type 0} (fl : Floats F) (t : Toolkit) (wire : Wire F) {W : Type 0}
    (hooks : Hook → W → W) (s : Settings F) where
  refused :
      (id : Text) (c : Counters) (e : EnqueueError) (sp : Spool W)
      → (after_enqueue fl t wire hooks s id c (some e, sp)).0.status ≢ 202
  unfolding after_enqueue
  refused id c e sp = ground arith

  -- The answer of Enqueue decides between 202 and a refusal.
  after_enqueue-accepted :
      (id : Text) (c : Counters) (a : Option EnqueueError × Spool W)
      → (after_enqueue fl t wire hooks s id c a).0.status ≡ 202
      → (a.0 ≡ none)
        × ((after_enqueue fl t wire hooks s id c a).0.signal_id ≡ some id)
        × ((after_enqueue fl t wire hooks s id c a).1.spool ≡ a.1)
  unfolding after_enqueue
  after_enqueue-accepted id c (none, sp) h = (refl, refl, refl)
  after_enqueue-accepted id c (some e, sp) h = absurd (refused id c e sp h)

  committed : {o : Option EnqueueError} → o ≡ none → is_committed o ≡ true
  unfolding is_committed
  committed h = rw h refl

  -- What a response with status 202 means.
  abbrev pub IsQueued : Request → Gateway W → Response × Gateway W → Type 0
  IsQueued q g out =
      (r : RawData F) × (fallback : Text) × (payload : Text) × (process_inbound_request fl t wire
          q.body
        ≡ some r)
      × (wire.encode (anonymize_signal fl t s r fallback) ≡ some payload)
      × (out.0.signal_id ≡ some (anonymize_signal fl t s r fallback).signal_id)
      × (read_file (spool_name q.now (g.spool.seq + 1)) out.1.spool.dir ≡ some payload)

  -- A response with status 202 is given only after a valid event's anonymized signal has been
  -- encoded and lies in the spool's directory under its name; the response names the
  -- signal_id of that signal.
  pub accepted-IsQueued :
      (q : Request) (g : Gateway W)
      → (process_transaction fl t wire hooks s q g).0.status ≡ 202
      → IsQueued q g (process_transaction fl t wire hooks s q g)
  unfolding process_transaction process_valid queue_signal
  accepted-IsQueued q g h = elim (Bool-cases q.is_post) [
    | inr m ↦ absurd (omega (arith, rw (m, process_transaction) at h))
    | inl m ↦ elim (Option-cases (process_inbound_request fl t wire q.body)) [
      | inl e ↦ absurd (omega (arith, rw (m, e, process_transaction) at h))
      | inr (r, e) ↦ elim (Option-cases (fallback_of fl t wire q.fresh_id r)) [
        | inl f ↦ absurd (omega (arith, rw (m, e, f, process_transaction, process_valid) at h))
        | inr (fallback, f) ↦
            elim (Option-cases (wire.encode (anonymize_signal fl t s r fallback))) [
              | inl d ↦ absurd (
                  omega
                    (arith, rw (m, e, f, d, process_transaction, process_valid, queue_signal) at h))
              | inr (payload, d) ↦
                  let a = anonymize_signal fl t s r fallback in
                  let c = note_sentinel fl t wire a g.counters in
                  let answer = enqueue hooks q.faults q.now payload g.spool in
                  let (ok, id, same) =
                    after_enqueue-accepted a.signal_id c answer
                      (rw (m, e, f, d, process_transaction, process_valid, queue_signal) at h) in
                  rw (m, e, f, process_transaction, process_valid, queue_signal, d)
                    (
                      r,
                      fallback,
                      payload,
                      refl,
                      d,
                      id,
                      subst
                          (λ z. read_file (spool_name q.now (g.spool.seq + 1)) z.dir ≡ some payload)
                          (sym same)
                          (enqueue-read hooks q.faults q.now payload g.spool (committed ok)),
                    )
            ]
      ]
    ]
  ]

  after_enqueue-refused :
      (id : Text) (c : Counters) (a : Option EnqueueError × Spool W)
      → (after_enqueue fl t wire hooks s id c a).1.spool ≡ a.1
  unfolding after_enqueue
  after_enqueue-refused id c (none, sp) = refl
  after_enqueue-refused id c (some e, sp) = ground arith

  -- What the spool is like after a response: as before, or it holds one more signal under the
  -- next name.
  abbrev pub IsUnqueuedOr : Request → Gateway W → Gateway W → Type 0
  IsUnqueuedOr q g h =
      ((pending_names h.spool.dir ≡ pending_names g.spool.dir) × (h.spool.depth ≡ g.spool.depth))
      ⊎ ((payload : Text) × (is_committed (enqueue hooks q.faults q.now payload g.spool).0 ≡ true)
          × (read_file (spool_name q.now (g.spool.seq + 1)) h.spool.dir ≡ some payload))

  enqueued :
      (q : Request) (payload id : Text) (c : Counters) (g : Gateway W)
      → IsUnqueuedOr q g
          (after_enqueue fl t wire hooks s id c (enqueue hooks q.faults q.now payload g.spool)).1
  enqueued q payload id c g =
      let answer = enqueue hooks q.faults q.now payload g.spool in
      let same = after_enqueue-refused id c answer in
      elim (Bool-cases (is_committed answer.0)) [
        | inl b ↦ inr (
          payload,
          b,
          subst (λ z. read_file (spool_name q.now (g.spool.seq + 1)) z.dir ≡ some payload)
              (sym same) (enqueue-read hooks q.faults q.now payload g.spool b),
        )
        | inr b ↦ inl (
            subst
              (λ z. (pending_names z.dir ≡ pending_names g.spool.dir) × (z.depth ≡ g.spool.depth))
              (sym same) (enqueue_failed_unchanged hooks q.faults q.now payload g.spool b))
      ]

  -- Every request, however it is answered, either leaves the waiting signals and the counter as
  -- they were, or Enqueue has committed a payload, which lies in the spool under the next name.
  pub transaction_all_or_nothing :
      (q : Request) (g : Gateway W) → IsUnqueuedOr q g (process_transaction fl t wire hooks s q g).1
  unfolding process_transaction process_valid queue_signal
  transaction_all_or_nothing q g = elim (Bool-cases q.is_post) [
    | inr m ↦ rw (m, process_transaction) (inl (refl, refl))
    | inl m ↦ elim (Option-cases (process_inbound_request fl t wire q.body)) [
      | inl e ↦ rw (m, e, process_transaction) (inl (refl, refl))
      | inr (r, e) ↦ elim (Option-cases (fallback_of fl t wire q.fresh_id r)) [
        | inl f ↦ rw (m, e, f, process_transaction, process_valid) (inl (refl, refl))
        | inr (fallback, f) ↦
            elim (Option-cases (wire.encode (anonymize_signal fl t s r fallback))) [
              | inl d ↦
                  rw (m, e, f, process_transaction, process_valid, queue_signal, d)
                    (inl (refl, refl))
              | inr (payload, d) ↦
                  let a = anonymize_signal fl t s r fallback in
                  rw (m, e, f, process_transaction, process_valid, queue_signal, d)
                    (enqueued q payload a.signal_id (note_sentinel fl t wire a g.counters) g)
            ]
      ]
    ]
  ]
