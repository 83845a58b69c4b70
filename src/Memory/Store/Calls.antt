-- ===== src/Memory/Store/Calls.antt =====
-- The calls that change an episode store, in any order.
use affective_belief_persist.Prelude.{ℕ, List, [], ◌∷◌, ok, err, Text}
use affective_belief_persist.Memory.{Memory}
use affective_belief_persist.Memory.Store.{
  EpisodeStore, ReframeRequest, append, record_retrieval, reframe,
}

pub data Call : Type 0 where
  append_call : Memory → Call
  retrieval_call : Text → List Text → ℕ → Call
  reframe_call : ReframeRequest → Call

module _ (access_digest : Text → Text → ℕ → Text)
    (reframe_digest : ReframeRequest → Text → Text) where
  -- The store after a call, which may have raised.
  abbrev pub after : EpisodeStore → Call → EpisodeStore
  after s (append_call m) = elim (append s m) [ ok out ↦ out.1 | err e ↦ s ]
  after s (retrieval_call retrieval_id ids day) =
      (record_retrieval access_digest s retrieval_id ids day).1
  after s (reframe_call r) = elim (reframe reframe_digest s r) [ ok out ↦ out.1 | err e ↦ s ]

  abbrev pub run_calls : EpisodeStore → List Call → EpisodeStore
  run_calls s [] = s
  run_calls s (c ∷ calls) = run_calls (after s c) calls
