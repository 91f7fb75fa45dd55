-- ===== src/Bond/Keeps.antt =====
-- An invariant of the rows that the handlers keep, statement by statement (src/app/bond/).
use mostro.Prelude.{
  Bool, true, false, List, [], ◌∷◌, Bool-cases, inl, inr, if◌then◌else◌, All, All-append,
}
use mostro.Result.{Result, ok, err, Error}
use mostro.Bond.Model.{Bond}
use mostro.Bond.Table.{
  World, M, ◌>>=◌, ◌>>◌, pure, raise, lift, fetch, execute, update_rows, is_faulty, HtlcCall,
}
use mostro.Bond.Statements.{continue, bind_continue}
use mostro.Bond.Payout.{ignore}
use mostro.Bond.Lightning.{call}
use mostro.Bond.Slash.Ends.{Ends}
use mostro.Bond.Queries.{insert_where, stating, transaction, commit, or_warn}

-- Whatever fails: if the rows fulfil it before, they do so after.
pub record Keeps {A : Type 0} (P : Bond → Type 0) (m : M A) : Type 0 where
  pub rows : (w : World) → All P w.bonds → All P (m w).1.bonds

module _ (P : Bond → Type 0) where
  continued :
      {A B : Type 0} (f : A → M B) (p : Result A × World)
      → All P p.1.bonds
      → ((a : A) → Keeps P (f a))
      → All P (continue f p).1.bonds
  continued f (ok a, w) h k = (k a).rows w h
  continued f (err e, w) h k = h

  pub >>=-Keeps :
      {A B : Type 0} (m : M A) (f : A → M B)
      → Keeps P m
      → ((a : A) → Keeps P (f a))
      → Keeps P (m >>= f)
  >>=-Keeps m f h k = record {
    rows = λ w sound. rw (bind_continue m f w) (continued f (m w) (h.rows w sound) k);
  }

  pub pure-Keeps : {A : Type 0} (a : A) → Keeps P (pure a)
  unfolding pure
  pure-Keeps a = record { rows = λ w sound. sound }

  pub raise-Keeps : {A : Type 0} (e : Error) → Keeps P (raise {A = A} e)
  unfolding raise
  raise-Keeps e = record { rows = λ w sound. sound }

  pub lift-Keeps : {A : Type 0} (r : Result A) → Keeps P (lift r)
  unfolding lift
  lift-Keeps r = record { rows = λ w sound. sound }

  pub fetch-Keeps : {A : Type 0} (read : List Bond → A) → Keeps P (fetch read)
  unfolding fetch
  fetch-Keeps read = record { rows = λ w sound. sound }

  pub call-Keeps : (c : HtlcCall) → Keeps P (call c)
  unfolding call
  call-Keeps c = record { rows = λ w sound. sound }

  pub if-Keeps :
      {A : Type 0} (test : Bool) (m k : M A)
      → Keeps P m
      → Keeps P k
      → Keeps P (if test then m else k)
  if-Keeps true m k hm hk = hm
  if-Keeps false m k hm hk = hk

  rewritten :
      (fits : Bond → Bool) (change : Bond → Bond) (bs : List Bond)
      → ((b : Bond) → P b → P (change b))
      → All P bs
      → All P (update_rows fits change bs)
  unfolding update_rows
  rewritten fits change [] h sound = tt
  rewritten fits change (b ∷ bs) h sound = elim (Bool-cases (fits b)) [
    | inl fit ↦ rw fit (h b sound.0, rewritten fits change bs h sound.1)
    | inr other ↦ rw other (sound.0, rewritten fits change bs h sound.1)
  ]

  pub execute-Keeps :
      (fits : Bond → Bool) (change : Bond → Bond)
      → ((b : Bond) → P b → P (change b))
      → Keeps P (execute fits change)
  unfolding execute
  execute-Keeps fits change h = record {
    rows = λ w sound. elim (Bool-cases (is_faulty w.faults)) [
      | inl fault ↦ rw fault sound
      | inr fine ↦ rw fine (rewritten fits change w.bonds h sound)
    ];
  }

  pub insert-Keeps :
      (guard : List Bond → Bool) (row : Bond) → P row → Keeps P (insert_where guard row)
  unfolding insert_where
  insert-Keeps guard row h = record {
    rows = λ w sound. elim (Bool-cases (is_faulty w.faults)) [
      | inl fault ↦ rw fault sound
      | inr fine ↦ rw fine (elim (Bool-cases (guard w.bonds)) [
        | inl allowed ↦ rw allowed (All-append P w.bonds (row ∷ []) sound (h, tt))
        | inr refused ↦ rw refused sound
      ])
    ];
  }

  pub ignore-Keeps : {A : Type 0} (m : M A) → Keeps P m → Keeps P (ignore m)
  ignore-Keeps m h = >>=-Keeps m _ h (λ _. pure-Keeps tt)

  pub >>-Keeps : {A B : Type 0} (m : M A) (k : M B) → Keeps P m → Keeps P k → Keeps P (m >> k)
  >>-Keeps m k hm hk = >>=-Keeps m _ hm (λ _. hk)

  pub or_warn-Keeps : (m : M (Unit {0})) → Keeps P m → Keeps P (or_warn m)
  unfolding or_warn
  or_warn-Keeps m h = record { rows = h.rows }

  pub stating-Keeps :
      {A : Type 0} (m : List Bond → M A) → ((bs : List Bond) → Keeps P (m bs)) → Keeps P (stating m)
  unfolding stating
  stating-Keeps m h = record { rows = λ w. (h w.bonds).rows w }

  resolved :
      (w : World) (p : Result Bool × World)
      → All P w.bonds
      → All P p.1.bonds
      → All P (
          let (r, w') = p in
          (elim r as (λ _. Result (Unit {0}) × World) [
            | ok commits ↦ (ok tt, if commits then w' else record w' { bonds = w.bonds })
            | err e ↦ (err e, record w' { bonds = w.bonds })
          ]).1.bonds)
  resolved w (ok true, w') before after = after
  resolved w (ok false, w') before after = before
  resolved w (err e, w') before after = before

  commit-Keeps : (commits : Bool) → Keeps P (commit commits)
  unfolding commit
  commit-Keeps commits = if-Keeps commits _ _ (fetch-Keeps _) (pure-Keeps false)

  pub transaction-Keeps : (body : M Bool) → Keeps P body → Keeps P (transaction body)
  unfolding transaction
  transaction-Keeps body h = record {
    rows = λ w sound. resolved w _ sound (
        (>>=-Keeps (fetch (λ _. tt)) _ (fetch-Keeps _)
            (λ _. >>=-Keeps body commit h commit-Keeps)).rows
          w sound);
  }

  -- A read of rows, and a computation that relies on what they fulfil.
  yielded :
      {A B : Type 0} (Q : A → Type 0) (f : A → M B) (p : Result A × World)
      → All P p.1.bonds
      → Ends (λ a _. Q a) p
      → ((a : A) → Q a → Keeps P (f a))
      → All P (continue f p).1.bonds
  yielded Q f (ok a, w) h q k = (k a q).rows w h
  yielded Q f (err e, w) h q k = h

  pub bind_read-Keeps :
      {A B : Type 0} (Q : A → Type 0) (m : M A) (f : A → M B)
      → Keeps P m
      → ((w : World) → All P w.bonds → Ends (λ a _. Q a) (m w))
      → ((a : A) → Q a → Keeps P (f a))
      → Keeps P (m >>= f)
  bind_read-Keeps Q m f h q k = record {
    rows = λ w sound. rw (bind_continue m f w) (yielded Q f (m w) (h.rows w sound) (q w sound) k);
  }
