-- ===== src/Connector/Scheduler/Tiling.antt =====
-- The chunks of one step, and of steps one behind the other.
use mathlib.Core.Path.{subst}
use pd_bridge.Prelude.{
  ℕ, zero, suc, ◌+◌, ◌-◌, ◌<◌, ◌≡◌, refl, ap, ◌∙◌, sym, min, true, false, ◌||◌, some, List, [], ◌∷◌,
  ◌++◌, arith, length, get_elem?, Bool-cases, Option-cases, inl, inr, leb, ◌==◌,
}
use pd_bridge.Connector.Scheduler.{
  Chunk, Tracked, CachedRequest, slot_of, slots_from, emit, with_blocks, start_hashes,
}

slots_from-suc :
    (bs : ℕ) (blocks : List ℕ) (pos n : ℕ) (slots : List ℕ)
    → slots_from bs blocks pos (suc n) ≡ some slots
    → (s : ℕ) × (ss : List ℕ) × ((slot_of bs blocks pos ≡ some s)
        × (slots_from bs blocks (pos + 1) n ≡ some ss)
        × (slots ≡ s ∷ ss))
unfolding slots_from
slots_from-suc bs blocks pos n slots h = elim (Option-cases (slot_of bs blocks pos)) [
  | inl missing ↦ absurd (ground arith)
  | inr (s, at) ↦ elim (Option-cases (slots_from bs blocks (pos + 1) n)) [
    | inl missing ↦ absurd (ground arith)
    | inr (ss, more) ↦ (s, ss, (at, more, ground arith))
  ]
]

-- as many slots as positions
slots_from-length :
    (bs : ℕ) (blocks : List ℕ) (pos n : ℕ) (slots : List ℕ)
    → slots_from bs blocks pos n ≡ some slots
    → length slots ≡ n
unfolding slots_from
slots_from-length bs blocks pos zero slots h = ground arith
slots_from-length bs blocks pos (suc n) slots h =
    let (s, ss, (at, more, eq)) = slots_from-suc bs blocks pos n slots h in
    ap length eq ∙ ap suc (slots_from-length bs blocks (pos + 1) n ss more)

-- If the slots of `n` positions from `pos` are found, then the slot of each of them is the one that the
-- block table gives for that position.
pub slots_from-get :
    (bs : ℕ) (blocks : List ℕ) (pos n : ℕ) (slots : List ℕ) (i : ℕ)
    → slots_from bs blocks pos n ≡ some slots
    → i < n
    → get_elem? slots i ≡ slot_of bs blocks (pos + i)
unfolding slots_from
slots_from-get bs blocks pos zero slots i h lt = absurd (omega arith)
slots_from-get bs blocks pos (suc n) slots zero h lt =
    let (s, ss, (at, more, eq)) = slots_from-suc bs blocks pos n slots h in
    ap (λ l. get_elem? l 0) eq ∙ sym (ap (slot_of bs blocks) (omega arith) ∙ at)
slots_from-get bs blocks pos (suc n) slots (suc i) h lt =
    let (s, ss, (at, more, eq)) = slots_from-suc bs blocks pos n slots h in
    ap (λ l. get_elem? l (suc i)) eq
    ∙ slots_from-get bs blocks (pos + 1) n ss i more (omega arith)
    ∙ ap (slot_of bs blocks) (omega arith)

-- A chunk of the rows [a, b) of the request: it has rows, and it is marked last just if it reaches the
-- prompt's end.
pub record IsChunk (tag : List ℕ) (len a b : ℕ) (c : Chunk) : Type 0 where
  pub tag_eq : c.tag ≡ tag
  pub len_eq : c.prompt_len ≡ len
  pub start_eq : c.start ≡ a
  pub has_rows : a < b
  pub rows_eq : a + length c.slots ≡ b
  pub last_eq : c.last ≡ leb len b

-- The chunks follow one another without a gap from `a` to `b`.
abbrev pub Tiles : List ℕ → ℕ → ℕ → List Chunk → ℕ → Type 0
Tiles tag len a [] b = a ≡ b
Tiles tag len a (c ∷ cs) b =
    IsChunk tag len a (a + length c.slots) c × Tiles tag len (a + length c.slots) cs b

abbrev chunk_of : Tracked → ℕ → List ℕ → ℕ → Chunk
chunk_of st a slots end = record {
  tag = st.tag;
  prompt_len = st.prompt_len;
  start = a;
  slots = slots;
  last = leb st.prompt_len end;
  omlx_model = st.omlx_model;
  hashes = start_hashes a st.hashes;
}

emit-busy :
    (bs : ℕ) (st : Tracked) (a n : ℕ) (slots : List ℕ)
    → (n == 0 || leb st.prompt_len a) ≡ false
    → slots_from bs st.blocks a (min (a + n) st.prompt_len - a) ≡ some slots
    → (chunks : List Chunk) → emit bs st a n ≡ some chunks
    → chunk_of st a slots (min (a + n) st.prompt_len) ∷ [] ≡ chunks
unfolding emit
emit-busy bs st a n slots busy at chunks h = ground arith

emit-idle :
    (bs : ℕ) (st : Tracked) (a n : ℕ)
    → (n == 0 || leb st.prompt_len a) ≡ true
    → (chunks : List Chunk) → emit bs st a n ≡ some chunks
    → [] ≡ chunks
unfolding emit
emit-idle bs st a n idle chunks h = ground arith

idle-min : (p a n : ℕ) → (n == 0 || leb p a) ≡ true → min a p ≡ min (a + n) p
idle-min p a n idle = ground arith

busy-lt : (p a n : ℕ) → (n == 0 || leb p a) ≡ false → (0 < n) × (a < p)
busy-lt p a n busy = ground arith

-- what one step emits
pub emit-Tiles :
    (bs : ℕ) (st : Tracked) (a n : ℕ) (chunks : List Chunk)
    → emit bs st a n ≡ some chunks
    → Tiles st.tag st.prompt_len (min a st.prompt_len) chunks (min (a + n) st.prompt_len)
unfolding emit
emit-Tiles bs st a n chunks h = elim (Bool-cases (n == 0 || leb st.prompt_len a)) [
  | inl idle ↦
      subst (λ l. Tiles st.tag st.prompt_len (min a st.prompt_len) l (min (a + n) st.prompt_len))
        (emit-idle bs st a n idle chunks h) (idle-min st.prompt_len a n idle)
  | inr busy ↦ elim (Option-cases (slots_from bs st.blocks a (min (a + n) st.prompt_len - a))) [
    | inl missing ↦ absurd (ground arith)
    | inr (slots, at) ↦
        subst (λ l. Tiles st.tag st.prompt_len (min a st.prompt_len) l (min (a + n) st.prompt_len))
          (emit-busy bs st a n slots busy at chunks h)
          (let (more, inside) = busy-lt st.prompt_len a n busy in
            let len = slots_from-length bs st.blocks a (min (a + n) st.prompt_len - a) slots at in
            let rows : min a st.prompt_len + length slots ≡ min (a + n) st.prompt_len =
              omega (arith, len, more, inside) in
            (
              record {
                tag_eq = refl;
                len_eq = refl;
                start_eq = omega (arith, inside);
                has_rows = omega (arith, len, more, inside);
                rows_eq = refl;
                last_eq = ap (leb st.prompt_len) (sym rows);
              },
              rows,
            ))
  ]
]

pub Tiles-append :
    (tag : List ℕ) (len a b d : ℕ) (cs more : List Chunk)
    → Tiles tag len a cs b
    → Tiles tag len b more d
    → Tiles tag len a (cs ++ more) d
Tiles-append tag len a b d [] more h more-h = subst (λ x. Tiles tag len x more d) (sym h) more-h
Tiles-append tag len a b d (c ∷ cs) more (one, h) more-h =
    (one, Tiles-append tag len (a + length c.slots) b d cs more h more-h)

pub unchanged :
    (cr : CachedRequest) (st : Tracked)
    → ((with_blocks cr st).tag ≡ st.tag) × ((with_blocks cr st).prompt_len ≡ st.prompt_len)
unfolding with_blocks
unchanged cr st = ground arith

pub retag :
    {t t' : List ℕ} {l l' : ℕ}
    → t ≡ t'
    → l ≡ l'
    → (a b : ℕ) (cs : List Chunk) → Tiles t l (min a l) cs (min b l)
    → Tiles t' l' (min a l') cs (min b l')
retag {t} {t'} {l} {l'} ts ls a b cs h =
    subst (λ k. Tiles t' k (min a k) cs (min b k)) ls
      (subst (λ u. Tiles u l (min a l) cs (min b l)) ts h)
