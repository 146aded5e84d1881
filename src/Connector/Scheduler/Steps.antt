-- ===== src/Connector/Scheduler/Steps.antt =====
-- The steps of a request through the scheduler: what `build_connector_meta` does for it, step after step.
use mathlib.Core.Option.{some_inj}
use pd_bridge.Prelude.{
  ℕ, ◌+◌, ◌≡◌, refl, ap, ◌∙◌, sym, min, true, false, ◌||◌, Option, none, some, List, [], ◌∷◌, ◌++◌,
  arith, length, Option-cases, inl, inr, ◌==◌, ◌≤◌, find, put, find-put_same, not, if◌then◌else◌,
  Bool, append_assoc, append-nil,
}
use pd_bridge.Connector.Scheduler.{
  Chunk, Tracked, NewRequest, CachedRequest, SchedulerOutput, Tracking, emit, with_blocks,
  scheduled_of, plain, with_model, block_param, emitted, add_new, add_cached,
}
use pd_bridge.Connector.Tags.{PyValue, none_value, text, number, other, is_model, tag_of}
use pd_bridge.Connector.Scheduler.Tiling.{Tiles, emit-Tiles, Tiles-append, unchanged, retag}

-- A later step of a request: the scheduler's output and the request's entry in it.
abbrev pub Step : Type 0
Step = SchedulerOutput × CachedRequest

abbrev pub tokens_of : ℕ → SchedulerOutput → ℕ
tokens_of rid out = scheduled_of (find rid out.num_scheduled_tokens)

-- The entries are of the request `rid`, and each step computes from where the one before ended, the first from `a`, as the
-- engine's scheduler has it while a request is not preempted.
abbrev pub Follow : ℕ → ℕ → List Step → Type 0
Follow rid a [] = a ≤ a
Follow rid a ((out, cr) ∷ steps) =
    (cr.req_id ≡ rid) × (cr.num_computed_tokens ≡ a) × Follow rid (a + tokens_of rid out) steps

abbrev pub reach : ℕ → ℕ → List Step → ℕ
reach rid a [] = a
reach rid a ((out, cr) ∷ steps) = reach rid (a + tokens_of rid out) steps

module _ (bs omlx_block : ℕ) (to_int : PyValue → Option ℕ)
    (chain_hashes : Option (List ℕ → List ℕ → ℕ → List (List ℕ))) where
  -- a request's later steps, and all its steps from the first on; the chunks are those of all steps joined
  unfoldable pub run_steps : Tracking × List Chunk → List Step → Option (Tracking × List Chunk)
  unfolding add_cached
  run_steps m [] = some m
  run_steps m ((out, cr) ∷ steps) = elim (add_cached bs omlx_block to_int chain_hashes out m cr) [
    | none ↦ none
    | some m' ↦ run_steps m' steps
  ]

  abbrev pub then_steps :
      List Step → Option (Tracking × List Chunk) → Option (Tracking × List Chunk)
  then_steps steps none = none
  then_steps steps (some m) = run_steps m steps

  unfoldable pub run_request :
      Tracking × List Chunk
      → SchedulerOutput
      → NewRequest
      → List Step
      → Option (Tracking × List Chunk)
  unfolding add_new run_steps
  run_request m out nr steps = then_steps steps (add_new bs omlx_block to_int chain_hashes out m nr)

  abbrev Kept : Tracked → Option Tracked → Type 0
  Kept st none = 0 ≤ 0
  Kept st (some st') = (st'.tag ≡ st.tag) × (st'.prompt_len ≡ st.prompt_len)

  Kept-if :
      (b : Bool) (st st' : Tracked) → Kept st (some st') → Kept st (if b then some st else some st')
  Kept-if true st st' h = (refl, refl)
  Kept-if false st st' h = h

  with_model-Kept :
      (nr : NewRequest) (st : Tracked) (model : PyValue)
      → Kept st (with_model bs omlx_block to_int chain_hashes nr st model)
  unfolding with_model
  with_model-Kept nr st (none_value) = (refl, refl)
  with_model-Kept nr st (text model) =
      elim (Option-cases (to_int (block_param omlx_block nr.omlx_block))) [
        | inl e ↦ rw (e, with_model) (omega arith)
        | inr (block, e) ↦ elim (Option-cases chain_hashes) [
          | inl none_there ↦ rw (e, none_there, with_model) (refl, refl)
          | inr (chain, there) ↦
              rw (e, there, with_model)
                (Kept-if (not (is_model model) || not (block == omlx_block)) st _ (refl, refl))
        ]
      ]
  with_model-Kept nr st (number n) =
      elim (Option-cases (to_int (block_param omlx_block nr.omlx_block))) [
        | inl e ↦ rw (e, with_model) (omega arith)
        | inr (block, e) ↦ rw (e, with_model) (refl, refl)
      ]
  with_model-Kept nr st other =
      elim (Option-cases (to_int (block_param omlx_block nr.omlx_block))) [
        | inl e ↦ rw (e, with_model) (omega arith)
        | inr (block, e) ↦ rw (e, with_model) (refl, refl)
      ]

  -- what a request has emitted from the rows `a` to `b`, behind the chunks that were there
  pub record Emits (tag : List ℕ) (len a b : ℕ) (before all : List Chunk) : Type 0 where
    pub more : List Chunk
    pub all_eq : all ≡ before ++ more
    pub tiles : Tiles tag len (min a len) more (min b len)

  emitted-some :
      (reqs reqs' : Tracking) (before all : List Chunk) (o : Option (List Chunk))
      → emitted bs omlx_block to_int chain_hashes reqs before o ≡ some (reqs', all)
      → (more : List Chunk) × (o ≡ some more) × (reqs' ≡ reqs) × (all ≡ before ++ more)
  emitted-some reqs reqs' before all none h = absurd (cc h)
  emitted-some reqs reqs' before all (some more) h =
      let e = sym (some_inj.0 h) in (more, refl, ap (λ m. m.0) e, ap (λ m. m.1) e)

  -- one step: the request is tracked as `st` behind it, and has emitted its chunk
  emitted-Emits :
      (rid a n : ℕ) (st : Tracked) (reqs reqs' : Tracking) (before all : List Chunk)
      → emitted bs omlx_block to_int chain_hashes (put rid st reqs) before (emit bs st a n)
        ≡ some (reqs', all)
      → (find rid reqs' ≡ some st) × Emits st.tag st.prompt_len a (a + n) before all
  emitted-Emits rid a n st reqs reqs' before all h =
      let (more, one, same, eq) =
        emitted-some (put rid st reqs) reqs' before all (emit bs st a n) h in
      (
        ap (find rid) same ∙ find-put_same rid st reqs,
        record { more = more; all_eq = eq; tiles = emit-Tiles bs st a n more one },
      )

  add_cached-found :
      (out : SchedulerOutput) (cr : CachedRequest) (st : Tracked) (reqs : Tracking)
      (before : List Chunk)
      → find cr.req_id reqs ≡ some st
      → add_cached bs omlx_block to_int chain_hashes out (reqs, before) cr
        ≡ emitted bs omlx_block to_int chain_hashes
            (put cr.req_id (with_blocks cr st) reqs)
            before
            (emit bs (with_blocks cr st) cr.num_computed_tokens (tokens_of cr.req_id out))
  unfolding add_cached
  add_cached-found out cr st reqs before h = rw (h, add_cached) refl

  add_cached-Emits :
      (rid a : ℕ) (out : SchedulerOutput) (cr : CachedRequest) (st : Tracked)
      (reqs reqs' : Tracking) (before all : List Chunk)
      → cr.req_id ≡ rid
      → cr.num_computed_tokens ≡ a
      → find rid reqs ≡ some st
      → add_cached bs omlx_block to_int chain_hashes out (reqs, before) cr ≡ some (reqs', all)
      → (find rid reqs' ≡ some (with_blocks cr st))
        × Emits st.tag st.prompt_len a (a + tokens_of rid out) before all
  add_cached-Emits rid a out cr st reqs reqs' before all same from found h =
      let (tags, lens) = unchanged cr st in
      let n = tokens_of rid out in
      let (there, e) = emitted-Emits rid a n (with_blocks cr st) reqs reqs' before all (
        sym (
          add_cached-found out cr st reqs before (ap (λ r. find r reqs) same ∙ found)
          ∙ ap
              (λ r.
                emitted bs omlx_block to_int chain_hashes (put r (with_blocks cr st) reqs) before
                  (emit bs (with_blocks cr st) cr.num_computed_tokens (tokens_of r out)))
              same
          ∙ ap
              (λ c.
                emitted bs omlx_block to_int chain_hashes (put rid (with_blocks cr st) reqs) before
                  (emit bs (with_blocks cr st) c n))
              from)
        ∙ h) in
      (
        there,
        record {
          more = e.more;
          all_eq = e.all_eq;
          tiles = retag tags lens a (a + n) e.more e.tiles;
        },
      )

  Emits-append :
      (tag : List ℕ) (len a b d : ℕ) (before mid all : List Chunk)
      → Emits tag len a b before mid
      → Emits tag len b d mid all
      → Emits tag len a d before all
  Emits-append tag len a b d before mid all h k = record {
    more = h.more ++ k.more;
    all_eq = k.all_eq ∙ ap (λ l. l ++ k.more) h.all_eq ∙ append_assoc before h.more k.more;
    tiles = Tiles-append tag len _ (min b len) _ h.more k.more h.tiles k.tiles;
  }

  run_steps-Emits :
      (rid a : ℕ) (steps : List Step) (st : Tracked) (reqs reqs' : Tracking)
      (before all : List Chunk)
      → find rid reqs ≡ some st
      → Follow rid a steps
      → run_steps (reqs, before) steps ≡ some (reqs', all)
      → Emits st.tag st.prompt_len a (reach rid a steps) before all
  unfolding run_steps
  run_steps-Emits rid a [] st reqs reqs' before all found follow h = record {
    more = [];
    all_eq = ap (λ m. m.1) (sym (some_inj.0 h)) ∙ sym (append-nil before);
    tiles = refl;
  }
  run_steps-Emits rid a ((out, cr) ∷ steps) st reqs reqs' before all found (same, from, follow) h =
      elim (Option-cases (add_cached bs omlx_block to_int chain_hashes out (reqs, before) cr)) [
        | inl missing ↦
            absurd (
              cc
                (sym (ap (λ o. elim o [ none ↦ none | some m' ↦ run_steps m' steps ]) missing) ∙ h))
        | inr (m, e) ↦
            let rest : run_steps m steps ≡ some (reqs', all) =
              sym (ap (λ o. elim o [ none ↦ none | some m' ↦ run_steps m' steps ]) e) ∙ h in
            let (there, one) =
              add_cached-Emits rid a out cr st reqs m.0 before m.1 same from found e in
            let (tags, lens) = unchanged cr st in
            let more =
              run_steps-Emits rid (a + tokens_of rid out) steps (with_blocks cr st) m.0 reqs' m.1
                all there follow rest in
            Emits-append st.tag st.prompt_len a (a + tokens_of rid out) _ before m.1 all one
              (record {
                more = more.more;
                all_eq = more.all_eq;
                tiles =
                    retag tags lens (a + tokens_of rid out)
                      (reach rid (a + tokens_of rid out) steps) more.more more.tiles;
              })
      ]

  abbrev put_and_emit :
      SchedulerOutput
      → NewRequest
      → Tracking × List Chunk
      → Option Tracked
      → Option (Tracking × List Chunk)
  put_and_emit out nr m none = none
  put_and_emit out nr m (some st) =
      emitted bs omlx_block to_int chain_hashes (put nr.req_id st m.0) m.1
        (emit bs st nr.num_computed_tokens (tokens_of nr.req_id out))

  add_new-tagged :
      (out : SchedulerOutput) (nr : NewRequest) (tag : List ℕ) (m : Tracking × List Chunk)
      → tag_of nr.pd_tag ≡ some tag
      → add_new bs omlx_block to_int chain_hashes out m nr
        ≡ put_and_emit out nr m
            (with_model bs omlx_block to_int chain_hashes nr (plain nr tag) nr.omlx_model)
  unfolding add_new
  add_new-tagged out nr tag m h = rw (h, add_new) refl

  begun-Emits :
      (out : SchedulerOutput) (nr : NewRequest) (steps : List Step) (tag : List ℕ)
      (reqs reqs' : Tracking) (before all : List Chunk) (o : Option Tracked)
      → Kept (plain nr tag) o
      → Follow nr.req_id (nr.num_computed_tokens + tokens_of nr.req_id out) steps
      → then_steps steps (put_and_emit out nr (reqs, before) o) ≡ some (reqs', all)
      → Emits tag
          (length nr.prompt_token_ids)
          nr.num_computed_tokens
          (reach nr.req_id (nr.num_computed_tokens + tokens_of nr.req_id out) steps)
          before
          all
  begun-Emits out nr steps tag reqs reqs' before all none kept follow h = absurd (cc h)
  begun-Emits out nr steps tag reqs reqs' before all (some st) (tags, lens) follow h =
      let rid = nr.req_id in
      let a = nr.num_computed_tokens in
      let b = a + tokens_of rid out in
      let first =
        emitted bs omlx_block to_int chain_hashes (put rid st reqs) before
          (emit bs st a (tokens_of rid out)) in
      elim (Option-cases first) [
        | inl missing ↦ absurd (cc (sym (ap (then_steps steps) missing) ∙ h))
        | inr (m, e) ↦
            let rest : run_steps m steps ≡ some (reqs', all) = sym (ap (then_steps steps) e) ∙ h in
            let (there, one) = emitted-Emits rid a (tokens_of rid out) st reqs m.0 before m.1 e in
            let both =
              Emits-append st.tag st.prompt_len a b (reach rid b steps) before m.1 all one
                (run_steps-Emits rid b steps st m.0 reqs' m.1 all there follow rest) in
            record {
              more = both.more;
              all_eq = both.all_eq;
              tiles = retag tags lens a (reach rid b steps) both.more both.tiles;
            }
      ]

  -- The steps of a request with a tag, from the first on, if no exception is raised and each step computes from where the one
  -- before ended: the chunks that they add to the metadata lie one behind the other without a gap or an overlap, from the
  -- computed tokens of the first step to the end of the last one, both cut off at the end of the prompt; each has rows, and it
  -- is marked last just if it reaches the end of the prompt.
  pub run_request-Emits :
      (out : SchedulerOutput) (nr : NewRequest) (steps : List Step) (tag : List ℕ)
      (reqs reqs' : Tracking) (before all : List Chunk)
      → tag_of nr.pd_tag ≡ some tag
      → Follow nr.req_id (nr.num_computed_tokens + tokens_of nr.req_id out) steps
      → run_request (reqs, before) out nr steps ≡ some (reqs', all)
      → Emits tag
          (length nr.prompt_token_ids)
          nr.num_computed_tokens
          (reach nr.req_id (nr.num_computed_tokens + tokens_of nr.req_id out) steps)
          before
          all
  unfolding run_request
  run_request-Emits out nr steps tag reqs reqs' before all tagged follow h =
      begun-Emits out nr steps tag reqs reqs' before all
        (with_model bs omlx_block to_int chain_hashes nr (plain nr tag) nr.omlx_model)
        (with_model-Kept nr (plain nr tag) nr.omlx_model) follow
        (sym (ap (then_steps steps) (add_new-tagged out nr tag (reqs, before) tagged)) ∙ h)
