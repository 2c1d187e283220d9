-- ===== src/Database/Opening/Migrations.antt =====
-- What a run of the migrations does to the database.
use deskaone_sdk.Shared.{ℕ, ◌+◌, ◌≡◌, ◌⊎◌, refl, ap, ◌∙◌, arith}
use deskaone_sdk.Shared.{List, [], ◌∷◌, ◌++◌, length, Result, ok, err, Result-cases, inl, inr}
use deskaone_sdk.Shared.{none, some}
use deskaone_sdk.Database.{DatabaseError, failed_migration}
use deskaone_sdk.Database.Transactions.{Transactional}
use deskaone_sdk.Database.Opening.{Server, numbered, run_migrations, if_ok, migrate}

module _ {S C : Type 0} (server : Server S)
    (laws : Transactional server.begin server.commit server.rollback server.exec_in C) where
  -- `t` is `c` behind each of the scripts, once and in order.
  abbrev pub Ran : List (List ℕ) → C → C → Type 0
  Ran [] c t = c ≡ t
  Ran (m ∷ ms) c t = (mid : C) × laws.Applies m c mid × Ran ms mid t

  -- The scripts in front of `script` ran, from `c`, and `script` failed; `x` names its place in the list,
  -- counted from `first`, and the error.
  pub record StuckAt (first : ℕ) (ms : List (List ℕ)) (c : C) (x : DatabaseError) : Type 0 where
    pub before : List (List ℕ)
    pub script : List ℕ
    pub behind : List (List ℕ)
    pub reached : S
    pub pending : C
    pub text : List ℕ
    pub split : ms ≡ before ++ (script ∷ behind)
    pub ran : Ran before c pending
    pub holds : laws.pending reached ≡ some pending
    pub failed : (server.exec_in script reached).0 ≡ err text
    pub names : x ≡ failed_migration (first + length before) text

  -- The loop, from a state with the committed contents `old` and the pending ones `c`.
  abbrev Loop : ℕ → List (List ℕ) → C → C → Result DatabaseError (Unit {0}) × S → Type 0
  Loop i ms old c (ok u, t) =
      (laws.contents t ≡ old) × (next : C) × (laws.pending t ≡ some next) × Ran ms c next
  Loop i ms old c (err x, t) = (laws.contents t ≡ old) × (laws.pending t ≡ none) × StuckAt i ms c x

  -- How a migration of some scripts may end.
  abbrev pub Ends : List (List ℕ) → S → Result DatabaseError (Unit {0}) × S → Type 0
  Ends ms s (ok u, t) = Ran ms (laws.contents s) (laws.contents t)
  Ends ms s (err x, t) =
      ((laws.contents t ≡ laws.contents s)
        × (((server.begin s).0 ≡ err x) ⊎ StuckAt 0 ms (laws.contents s) x))
      ⊎ ((before : S) × (server.commit before ≡ (err x, t))
          × ((laws.contents t ≡ laws.contents s) ⊎ Ran ms (laws.contents s) (laws.contents t)))

  abbrev pub Outcome : List (List ℕ) → S → Result DatabaseError (Unit {0}) × S → Type 0
  Outcome ms s (r, t) = (laws.pending t ≡ none) × Ends ms s (r, t)

  cons-Loop :
      (i : ℕ) (m : List ℕ) (ms : List (List ℕ)) (old c mid : C)
      (r : Result DatabaseError (Unit {0}) × S)
      → laws.Applies m c mid
      → Loop (i + 1) ms old mid r
      → Loop i (m ∷ ms) old c r
  cons-Loop i m ms old c mid (ok u, t) e h =
      let (same, next, p, rest) = h in (same, next, p, (mid, e, rest))
  cons-Loop i m ms old c mid (err x, t) e (same, p, h) = (
    same,
    p,
    record {
      before = m ∷ h.before;
      script = h.script;
      behind = h.behind;
      reached = h.reached;
      pending = h.pending;
      text = h.text;
      split = ap (λ l. m ∷ l) h.split;
      ran = (mid, e, h.ran);
      holds = h.holds;
      failed = h.failed;
      names = h.names ∙ ap (λ k. failed_migration k h.text) (omega arith);
    },
  )

  run_migrations-Loop :
      (i : ℕ) (ms : List (List ℕ)) (s : S) (c : C)
      → laws.pending s ≡ some c
      → Loop i ms (laws.contents s) c (run_migrations server i ms s)
  unfolding run_migrations numbered
  run_migrations-Loop i [] s c p = (refl, c, p, refl)
  run_migrations-Loop i (m ∷ ms) s c p =
      let next = (server.exec_in m s).1 in
      let kept = laws.keeps m s in
      elim (Result-cases (server.exec_in m s).0) [
        | inr (text, bad) ↦ rw bad (
            let (back, none') = laws.rolls_back next in
            (
              back ∙ kept,
              none',
              record {
                before = [];
                script = m;
                behind = ms;
                reached = s;
                pending = c;
                text = text;
                split = refl;
                ran = refl;
                holds = p;
                failed = bad;
                names = ap (λ k. failed_migration k text) (omega arith);
              },
            ))
        | inl (u, ran) ↦ rw ran (
            let (mid, applied, p') = laws.executes m s c ran p in
            let rest = run_migrations-Loop (i + 1) ms next mid p' in
            cons-Loop i m ms (laws.contents s) c mid (run_migrations server (i + 1) ms next) applied
              (rw kept at rest))
      ]

  commit-Outcome :
      (ms : List (List ℕ)) (s t : S) (next : C)
      → laws.contents t ≡ laws.contents s
      → laws.pending t ≡ some next
      → Ran ms (laws.contents s) next
      → Outcome ms s (server.commit t)
  commit-Outcome ms s t next same p ran =
      let last = (server.commit t).1 in
      elim (Result-cases (server.commit t).0) [
        | inl (u, done) ↦
            (let (is, none') = laws.commit_ok t next done p in rw done (none', rw is ran))
        | inr (x, bad) ↦
            (let (none', which) = laws.commit_err t next x bad p in
              rw bad (
                none',
                inr (
                  t,
                  ap (λ y. (y, last)) bad,
                  elim which [ inl old ↦ inl (old ∙ same) | inr new ↦ inr (rw new ran) ],
                ),
              ))
      ]

  if_ok-Outcome :
      (ms : List (List ℕ)) (s : S) (r : Result DatabaseError (Unit {0}) × S)
      → Loop 0 ms (laws.contents s) (laws.contents s) r
      → Outcome ms s (if_ok server r server.commit)
  if_ok-Outcome ms s (ok u, t) h =
      let (same, next, p, ran) = h in commit-Outcome ms s t next same p ran
  if_ok-Outcome ms s (err x, t) (same, p, stuck) = (p, inl (same, inr stuck))

  -- Migrate of some scripts on a database with no open transaction leaves none open. It succeeds only
  -- where all scripts ran, once and in order, and what they made is committed. Otherwise its error is that
  -- of the beginning, or names the first script that failed, by its place in the list, and its error, and
  -- the database has not changed; or it is that of the commit, behind which the database has not changed
  -- or has all that the scripts made.
  pub migrate-Outcome :
      (m : List ℕ) (ms : List (List ℕ)) (s : S)
      → laws.pending s ≡ none
      → Outcome (m ∷ ms) s (migrate server (m ∷ ms) s)
  unfolding migrate
  migrate-Outcome m ms s idle =
      let open' = (server.begin s).1 in
      elim (Result-cases (server.begin s).0) [
        | inr (x, bad) ↦
            (let (same, p) = laws.begin_err s x bad in rw bad (p ∙ idle, inl (same, inl bad)))
        | inl (u, begun) ↦
            (let (same, p) = laws.begin_ok s begun in
              let h = run_migrations-Loop 0 (m ∷ ms) open' (laws.contents s) p in
              rw begun
                (if_ok-Outcome (m ∷ ms) s (run_migrations server 0 (m ∷ ms) open') (rw same at h)))
      ]
