-- ===== src/Publish/Parts.antt =====
-- indexer/publish.go: the events of the installs, invocations, snapshots and safe height of a batch.
use mathlib.Core.List.{Memᴰ}
use mathlib.Core.List.Memᴰ
use hyper_gnomon.Base.{
  ℕ, ◌^◌, ◌<◌, ◌≡◌, refl, sym, ap, subst, ◌∙◌, inl, inr, List, [], ◌∷◌, Bool-cases, if_yes, if_no,
  ltb→lt, lt→ltb,
}
use hyper_gnomon.Base.Int.{ℤ, pos, ltb_ℤ}
use hyper_gnomon.Base.Texts.{Bytes}
use hyper_gnomon.Codec.Install.{InstallRecord}
use hyper_gnomon.Codec.Variables.{ScidVariable}
use hyper_gnomon.Bus.Events.{Event}
use hyper_gnomon.Publish.{
  InvokeRecord, VarKey, Payload, scid_height_key, install_events, invoke_events, variable_events,
  safe_events,
}
use hyper_gnomon.Publish.Announced.{
  IsWritten, install_at, invocation_at, snapshot_at, safe_at, OfInstall, OfInvocation, OfSnapshot,
  OfSafe,
}
use hyper_gnomon.Publish.Laws.{split_scid_height_key-scid_height_key}

module _ {D : Type 0} (safe : ℤ) where
  install_events-cons :
      (s : Bytes) (n : ℕ) (rec : InstallRecord) (l : List (Bytes × InstallRecord))
      → n < 2 ^ 63
      → install_events {D = D} safe ((scid_height_key s (pos n), rec) ∷ l)
        ≡ install_at safe s n rec ∷ install_events safe l
  unfolding install_events
  install_events-cons s n rec l h =
      rw (install_events, split_scid_height_key-scid_height_key s n h) refl

module _ {D : Type 0} (safe : ℤ) (e : Event (Payload D)) where
  pub install_events-found :
      (l : List (Bytes × InstallRecord))
      → IsWritten l
      → Memᴰ e (install_events safe l)
      → OfInstall safe e l
  unfolding install_events
  install_events-found [] w m = absurd (Memᴰ.not-nil m)
  install_events-found ((key, rec) ∷ l) ((s, n, written, int64), ws) m =
      elim (Memᴰ.cases_cons (
        subst (Memᴰ e)
          (ap (λ k. install_events safe ((k, rec) ∷ l)) written
            ∙ install_events-cons safe s n rec l int64)
          m)) [
            | inl here ↦ (s, n, rec, int64, Memᴰ.head (λ i. (sym written i, rec)), here)
            | inr later ↦
                let below = install_events-found l ws later in
                (below.0, below.1, below.2, below.3, Memᴰ.tail below.4, below.5)
          ]

  pub install_events-published :
      (l : List (Bytes × InstallRecord))
      → IsWritten l
      → OfInstall safe e l
      → Memᴰ e (install_events safe l)
  unfolding install_events
  install_events-published [] w (s, n, rec, int64, there, shape) = absurd (Memᴰ.not-nil there)
  install_events-published ((key, r) ∷ l) ((s', n', written, int64'), ws)
        (s, n, rec, int64, there, shape) =
      elim (Memᴰ.cases_cons there) [
        | inl here ↦
            subst (Memᴰ e)
              (sym (install_events-cons safe s n rec l int64)
                ∙ ap (λ p. install_events safe (p ∷ l)) here)
              (Memᴰ.head shape)
        | inr later ↦
            subst (Memᴰ e)
              (sym (
                ap (λ k. install_events safe ((k, r) ∷ l)) written
                ∙ install_events-cons safe s' n' r l int64'))
              (Memᴰ.tail (install_events-published l ws (s, n, rec, int64, later, shape)))
      ]

  pub invoke_events-found :
      (l : List (InvokeRecord D)) → Memᴰ e (invoke_events safe l) → OfInvocation safe e l
  unfolding invoke_events
  invoke_events-found [] m = absurd (Memᴰ.not-nil m)
  invoke_events-found (inv ∷ l) m = elim (Memᴰ.cases_cons m) [
    | inl here ↦ (inv, Memᴰ.head refl, here)
    | inr later ↦ let below = invoke_events-found l later in (below.0, Memᴰ.tail below.1, below.2)
  ]

  pub invoke_events-published :
      (l : List (InvokeRecord D)) → OfInvocation safe e l → Memᴰ e (invoke_events safe l)
  unfolding invoke_events
  invoke_events-published [] (inv, there, shape) = absurd (Memᴰ.not-nil there)
  invoke_events-published (i ∷ l) (inv, there, shape) = elim (Memᴰ.cases_cons there) [
    | inl here ↦ Memᴰ.head (shape ∙ ap (λ x. invocation_at safe x) here)
    | inr later ↦ Memᴰ.tail (invoke_events-published l (inv, later, shape))
  ]

  pub variable_events-found :
      (l : List (VarKey × List ScidVariable))
      → Memᴰ e (variable_events safe l)
      → OfSnapshot safe e l
  unfolding variable_events
  variable_events-found [] m = absurd (Memᴰ.not-nil m)
  variable_events-found ((k, vars) ∷ l) m = elim (Memᴰ.cases_cons m) [
    | inl here ↦ (k, vars, Memᴰ.head refl, here)
    | inr later ↦
        let below = variable_events-found l later in (below.0, below.1, Memᴰ.tail below.2, below.3)
  ]

  pub variable_events-published :
      (l : List (VarKey × List ScidVariable))
      → OfSnapshot safe e l
      → Memᴰ e (variable_events safe l)
  unfolding variable_events
  variable_events-published [] (k, vars, there, shape) = absurd (Memᴰ.not-nil there)
  variable_events-published ((k', vars') ∷ l) (k, vars, there, shape) =
      elim (Memᴰ.cases_cons there) [
        | inl here ↦ Memᴰ.head (shape ∙ ap (λ p. snapshot_at safe p.0 p.1) here)
        | inr later ↦ Memᴰ.tail (variable_events-published l (k, vars, later, shape))
      ]

  pub safe_events-found :
      (new_height prev : ℤ)
      → Memᴰ e (safe_events safe new_height prev)
      → OfSafe safe e new_height prev
  unfolding safe_events
  safe_events-found new_height prev m = elim (Bool-cases (ltb_ℤ prev safe)) [
    | inl rises ↦ (
      ltb→lt _ _ rises,
      Memᴰ.eq_of_singleton (
          subst (Memᴰ e) (if_yes (ltb_ℤ prev safe) (safe_at safe new_height prev ∷ []) [] rises) m),
    )
    | inr stays ↦ absurd (
        Memᴰ.not-nil
          (subst (Memᴰ e) (if_no (ltb_ℤ prev safe) (safe_at safe new_height prev ∷ []) [] stays) m))
  ]

  pub safe_events-published :
      (new_height prev : ℤ)
      → OfSafe safe e new_height prev
      → Memᴰ e (safe_events safe new_height prev)
  unfolding safe_events
  safe_events-published new_height prev (rises, shape) =
      subst (Memᴰ e)
        (sym (if_yes (ltb_ℤ prev safe) (safe_at safe new_height prev ∷ []) [] (lt→ltb _ _ rises)))
        (Memᴰ.head shape)
