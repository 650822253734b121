-- ===== src/Sbatch/QueryCache/Laws.antt =====
-- What the cached queries answer, and when they run a command.
use slurm_async_runner.Prelude.{
  ℕ, ◌-◌, ◌*◌, ◌<◌, List, [], ◌∷◌, ◌++◌, map, Option, none, some, true, false, ◌||◌, Result, ok,
  ◌≡◌, refl, sym, ap, ◌∙◌, ◌⊎◌, inl, inr, Bool-cases, arith,
}
use slurm_async_runner.Prelude.Text.{Text}
use slurm_async_runner.Dispatcher.{CaptureOutput, Capture}
use slurm_async_runner.Sbatch.QueryCache.{
  Shape, CachedEntry, Cached, replay, has, covers, insert_key, sort_dedup, retain, stamp, usable,
  batch_of, live, serve, capture,
}

-- The equality test of the keys is their equality.
pub record SameIsEquality {K : Type 0} (shape : Shape K) : Type 0 where
  pub same_refl : (a : K) → shape.same a a ≡ true
  pub same_sound : (a b : K) → shape.same a b ≡ true → a ≡ b

module _ {K : Type 0} (shape : Shape K) (law : SameIsEquality shape) where
  has-insert_key :
      (j k : K) (xs : List K)
      → has shape j (insert_key shape k xs) ≡ (shape.same j k || has shape j xs)
  unfolding insert_key
  has-insert_key j k [] = refl
  has-insert_key j k (x ∷ xs) = elim (Bool-cases (shape.same k x)) [
    | inl e ↦ let equal : k ≡ x = law.same_sound k x e in rw e (rw equal (ground arith))
    | inr e ↦ ground (arith, has-insert_key j k xs)
  ]

  has-sort_dedup : (j : K) (xs : List K) → has shape j (sort_dedup shape xs) ≡ has shape j xs
  unfolding sort_dedup
  has-sort_dedup j [] = refl
  has-sort_dedup j (x ∷ xs) =
      rw (has-insert_key j x (sort_dedup shape xs), has-sort_dedup j xs) refl

  has-append :
      (j : K) (xs ys : List K) → has shape j (xs ++ ys) ≡ (has shape j xs || has shape j ys)
  has-append j [] ys = refl
  has-append j (x ∷ xs) ys = ground (arith, has-append j xs ys)

  covers_of :
      (keys ks : List K)
      → ((j : K) → has shape j ks ≡ true → has shape j keys ≡ true)
      → covers shape keys ks ≡ true
  covers_of keys [] h = refl
  covers_of keys (k ∷ ks) h =
      rw (h k (rw (law.same_refl k) refl), covers_of keys ks (λ j i. h j (ground arith))) refl

  has-of_covers :
      (keys ks : List K) (j : K)
      → covers shape keys ks ≡ true
      → has shape j ks ≡ true
      → has shape j keys ≡ true
  has-of_covers keys [] j c h = absurd (cc)
  has-of_covers keys (k ∷ ks) j c h = elim (Bool-cases (shape.same j k)) [
    | inl e ↦ let equal : j ≡ k = law.same_sound j k e in rw equal (ground arith)
    | inr e ↦ has-of_covers keys ks j (ground arith) (ground arith)
  ]

  covers_trans :
      (a b c : List K) → covers shape a b ≡ true → covers shape b c ≡ true → covers shape a c ≡ true
  covers_trans a b c p q = covers_of a c (λ j h. has-of_covers a b j p (has-of_covers b c j q h))

  covers-batch_of :
      (now ttl : ℕ) (requested : List K) (recent : List (K × ℕ))
      → covers shape (batch_of shape now ttl requested recent) requested ≡ true
  unfolding batch_of
  covers-batch_of now ttl requested recent = covers_of _ requested (λ j h.
      rw
        (
          has-sort_dedup j (
              map (λ e. e.0) (retain shape now (2 * ttl) (stamp shape now requested recent))
              ++ requested),
          has-append j
              (map (λ e. e.0) (retain shape now (2 * ttl) (stamp shape now requested recent)))
              requested,
          h,
        )
        (ground arith))

  module _ {W : Type 0} (now : W → ℕ) (ttl : ℕ) (inner : Capture W) where
    -- What a query leaves behind and answers, over the entry that holds from then on.
    abbrev pub IsAnswered : List K → Cached K W → Result Text CaptureOutput × Cached K W → Type 0
    IsAnswered requested s q =
        (e : CachedEntry K) × (q.1.slot.entry ≡ some e)
        × (covers shape e.keys requested ≡ true)
        × (((q.0 ≡ e.result) × (e.at ≡ now q.1.world))
            ⊎ ((q.0 ≡ replay e.result shape.marker)
                × (q.1.world ≡ s.world)
                × (now s.world - e.at < ttl)))

    -- An entry is what the command for its keys brought, in some world, and when it ended.
    abbrev pub EntryIsFetched : Option (CachedEntry K) → Type 0
    EntryIsFetched none = Unit {0}
    EntryIsFetched (some e) =
        (v : W) × (e.result ≡ (inner (shape.build e.keys) v).0)
        × (e.at ≡ now (inner (shape.build e.keys) v).1)

    -- What a query leaves behind and answers: it ran the command for the keys of the new entry and
    -- answers with its output, or it ran none and replays a young entry.
    abbrev pub IsServed : List K → Cached K W → Result Text CaptureOutput × Cached K W → Type 0
    IsServed requested s q =
        (e : CachedEntry K) × (q.1.slot.entry ≡ some e)
        × (covers shape e.keys requested ≡ true)
        × EntryIsFetched (some e)
        × (((q.0 ≡ (inner (shape.build e.keys) s.world).0)
              × (q.1.world ≡ (inner (shape.build e.keys) s.world).1)
              × (e.result ≡ q.0)
              × (e.at ≡ now q.1.world))
            ⊎ ((s.slot.entry ≡ some e)
                × (q.0 ≡ replay e.result shape.marker)
                × (q.1.world ≡ s.world)
                × (now s.world - e.at < ttl)))

    serve-entry :
        (requested : List K) (s : Cached K W) (o : Option (CachedEntry K))
        → s.slot.entry ≡ o
        → usable shape (now s.world) ttl requested o ≡ true
        → IsAnswered requested s (serve shape now ttl inner requested s)
    unfolding serve
    serve-entry requested s none p u = absurd (cc)
    serve-entry requested s (some e) p u =
        rw (p, u) (e, refl, ground arith, inr (refl, refl, ground arith))

    serve_lem :
        (requested : List K) (s : Cached K W)
        → IsAnswered requested s (serve shape now ttl inner requested s)
    unfolding serve live
    serve_lem requested s =
        elim (Bool-cases (usable shape (now s.world) ttl requested s.slot.entry)) [
          | inl u ↦ serve-entry requested s s.slot.entry refl u
          | inr u ↦
              rw u (
                _,
                refl,
                covers-batch_of (now s.world) ttl requested s.slot.recent,
                inl (refl, refl),
              )
        ]

    capture-IsAnswered :
        (argv : List Text) (requested : List K) (s : Cached K W)
        → shape.parse argv ≡ some requested
        → IsAnswered requested s (capture shape now ttl inner argv s)
    unfolding capture
    capture-IsAnswered argv requested s p = rw (capture, p) (serve_lem requested s)

    serve-held :
        (requested : List K) (s : Cached K W) (o : Option (CachedEntry K))
        → s.slot.entry ≡ o
        → EntryIsFetched o
        → usable shape (now s.world) ttl requested o ≡ true
        → IsServed requested s (serve shape now ttl inner requested s)
    unfolding serve
    serve-held requested s none p f u = absurd (cc)
    serve-held requested s (some e) p f u =
        rw (p, u) (e, refl, ground arith, f, inr (refl, refl, refl, ground arith))

    serve-IsServed :
        (requested : List K) (s : Cached K W)
        → EntryIsFetched s.slot.entry
        → IsServed requested s (serve shape now ttl inner requested s)
    unfolding serve live
    serve-IsServed requested s f =
        elim (Bool-cases (usable shape (now s.world) ttl requested s.slot.entry)) [
          | inl u ↦ serve-held requested s s.slot.entry refl f u
          | inr u ↦ rw u (
            _,
            refl,
            covers-batch_of (now s.world) ttl requested s.slot.recent,
            (s.world, refl, refl),
            inl (refl, refl, refl, refl),
          )
        ]

    -- A query that the shape recognises, if the cached entry is what the command for its keys brought:
    -- it is answered from an entry whose keys hold every requested one, and which is what the command
    -- for those keys brought. Either this very call ran that command, has its output as the answer, and
    -- the entry is as old as its end; or no command ran, and the answer replays the entry that was
    -- there, which is younger than the lifetime.
    pub capture-IsServed :
        (argv : List Text) (requested : List K) (s : Cached K W)
        → EntryIsFetched s.slot.entry
        → shape.parse argv ≡ some requested
        → IsServed requested s (capture shape now ttl inner argv s)
    unfolding capture
    capture-IsServed argv requested s f p = rw (capture, p) (serve-IsServed requested s f)

    usable-of :
        (s : Cached K W) (e : CachedEntry K) (requested : List K)
        → now s.world - e.at < ttl
        → covers shape e.keys requested ≡ true
        → usable shape (now s.world) ttl requested (some e) ≡ true
    usable-of s e requested young c = ground arith

    hit :
        (argv : List Text) (requested : List K) (s : Cached K W) (e : CachedEntry K)
        → shape.parse argv ≡ some requested
        → s.slot.entry ≡ some e
        → usable shape (now s.world) ttl requested (some e) ≡ true
        → ((capture shape now ttl inner argv s).0 ≡ replay e.result shape.marker)
          × ((capture shape now ttl inner argv s).1.world ≡ s.world)
    unfolding capture serve
    hit argv requested s e p q u = rw (capture, p, q, u) (refl, refl)

    -- A query right behind another runs no command, if the lifetime is not zero and it asks for keys
    -- that the first asked for too; and it has the same output, if the first had one.
    pub capture-single_flight :
        (argv argv' : List Text) (requested requested' : List K) (s : Cached K W)
        → 0 < ttl
        → shape.parse argv ≡ some requested
        → shape.parse argv' ≡ some requested'
        → covers shape requested requested' ≡ true
        → ((capture shape now ttl inner argv' (capture shape now ttl inner argv s).1).1.world
            ≡ (capture shape now ttl inner argv s).1.world)
          × ((out : CaptureOutput)
              → (capture shape now ttl inner argv s).0 ≡ ok out
              → (capture shape now ttl inner argv' (capture shape now ttl inner argv s).1).0
                ≡ ok out)
    capture-single_flight argv argv' requested requested' s positive p p' c =
        again (capture-IsAnswered argv requested s p)
      where
        again :
            IsAnswered requested s (capture shape now ttl inner argv s)
            → ((capture shape now ttl inner argv' (capture shape now ttl inner argv s).1).1.world
                ≡ (capture shape now ttl inner argv s).1.world)
              × ((out : CaptureOutput)
                  → (capture shape now ttl inner argv s).0 ≡ ok out
                  → (capture shape now ttl inner argv' (capture shape now ttl inner argv s).1).0
                    ≡ ok out)
        again (e, held, covered, inl (fetched, time)) =
            let young : now (capture shape now ttl inner argv s).1.world - e.at < ttl =
              rw time (omega arith) in
            let (answer, world) =
              hit argv' requested' (capture shape now ttl inner argv s).1 e p' held (
                usable-of (capture shape now ttl inner argv s).1 e requested' young
                  (covers_trans e.keys requested requested' covered c)) in
            (
              world,
              λ out o.
                  let r : e.result ≡ ok out = sym fetched ∙ o in
                  answer ∙ ap (λ t. replay t shape.marker) r,
            )
        again (e, held, covered, inr (replays, same, aged)) =
            let young : now (capture shape now ttl inner argv s).1.world - e.at < ttl =
              rw same aged in
            let (answer, world) =
              hit argv' requested' (capture shape now ttl inner argv s).1 e p' held (
                usable-of (capture shape now ttl inner argv s).1 e requested' young
                  (covers_trans e.keys requested requested' covered c)) in
            (world, λ out o. answer ∙ sym replays ∙ o)

  keep-nothing : (t : ℕ) (recent : List (K × ℕ)) → retain shape t 0 recent ≡ []
  unfolding retain
  keep-nothing t [] = refl
  keep-nothing t ((k, u) ∷ recent) = ground (arith, keep-nothing t recent)

  usable-zero :
      (t : ℕ) (requested : List K) (o : Option (CachedEntry K))
      → usable shape t 0 requested o ≡ false
  usable-zero t requested none = refl
  usable-zero t requested (some e) = ground arith

  -- With a lifetime of zero nothing is cached: each query that the shape recognises runs its command,
  -- for the requested keys alone, and answers with that command's output.
  pub capture-uncached :
      {W : Type 0} (now : W → ℕ) (inner : Capture W) (argv : List Text) (requested : List K)
      (s : Cached K W)
      → shape.parse argv ≡ some requested
      → ((capture shape now 0 inner argv s).0
          ≡ (inner (shape.build (sort_dedup shape requested)) s.world).0)
        × ((capture shape now 0 inner argv s).1.world
            ≡ (inner (shape.build (sort_dedup shape requested)) s.world).1)
  unfolding capture serve live batch_of
  capture-uncached now inner argv requested s p =
      rw
        (
          capture,
          p,
          usable-zero (now s.world) requested s.slot.entry,
          keep-nothing (now s.world) (stamp shape (now s.world) requested s.slot.recent),
        )
        (refl, refl)
