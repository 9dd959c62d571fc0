-- ===== src/Wrapper/Engine/Profiles.antt =====
-- FoloXrayStartJSON of apple-wrapper/folo_apple.go with `Load` of main/folojson/folojson.go as the loader
-- that core.LoadConfig finds: the bytes pass from one to the other through bytes.NewReader.
use folo_xray_apple.Prelude.{
  sym, ap, ◌∙◌, inl, inr, Option-cases, if◌then◌else◌, ◌||◌, ◌==◌, ℕ, ◌<◌, ◌≤◌, ◌≡◌, refl, subst,
  ◌↔◌, arith, true, [], ◌∷◌, Option, none, some, length, take, Bytes, Outcome, ok, err, panic,
}
use mathlib.Core.List.{append-nil}
use folo_xray_apple.Router.Decision.{Env}
use folo_xray_apple.Folotun.Stream.{got}
use folo_xray_apple.Profile.Config.{Config, ProfileError, CoreConfig}
use folo_xray_apple.Profile.Build.{Lib}
use folo_xray_apple.Profile.Build.Whole.{IsAccepted}
use folo_xray_apple.Profile.Load.{Json, load}
use folo_xray_apple.Profile.Load.Configs.{IsWhole, load-copy_config}
use folo_xray_apple.Wrapper.Engine.{
  is_some, state_running, Process, Answers, start_json, status_ok, max_config_bytes, copy_config,
}
use folo_xray_apple.Wrapper.Engine.States.{IsIdle}
use folo_xray_apple.Wrapper.Engine.Calls.{start_json-ok_iff}

-- What core.LoadConfig returns of a loader that does not panic (`start_profile`).
abbrev pub loaded_of : {A : Type 0} → Outcome ProfileError A → Option A
loaded_of (ok a) = some a
loaded_of (err e) = none
loaded_of panic = none

-- What comes after a call that may panic.
abbrev pub unless_panic : {A B : Type 0} → Outcome ProfileError A → B → Outcome ProfileError B
unless_panic (ok a) b = ok b
unless_panic (err e) b = ok b
unless_panic panic b = panic

unless_panic-ok :
    {A B : Type 0} (m : Outcome ProfileError A) (b r : B) → unless_panic m b ≡ ok r → r ≡ b
unless_panic-ok (ok a) b r e = ground arith
unless_panic-ok (err x) b r e = ground arith
unless_panic-ok panic b r e = absurd cc

loaded_of-some :
    {A : Type 0} (o : Outcome ProfileError A) (a : A) → (loaded_of o ≡ some a) ↔ (o ≡ ok a)
loaded_of-some (ok b) a = (λ e. ground arith, λ e. ground arith)
loaded_of-some (err x) a = (λ e. absurd cc, λ e. absurd cc)
loaded_of-some panic a = (λ e. absurd cc, λ e. absurd cc)

copy_config-some_iff :
    (memory : Bytes) (size : ℕ) (bytes : Bytes)
    → (copy_config (some memory) size ≡ some bytes)
      ↔ ((0 < size) × (size ≤ max_config_bytes) × (bytes ≡ take size memory))
unfolding copy_config
copy_config-some_iff memory size bytes = (λ e. ground arith, λ h. ground arith)

module _ {Address Uuid : Type 0} (lib : Lib Address Uuid) (json : Json) where
  -- `core.LoadConfig("json", bytes.NewReader(config))`
  abbrev pub with_loader : Answers (CoreConfig Address) → Answers (CoreConfig Address)
  with_loader core = record core {
    load_config = λ bytes. loaded_of (load lib json (some (got bytes ∷ [])));
  }

  -- FoloXrayStartJSON with the loader: a panic of `Load`, which comes after the checks of the engine and
  -- of the bytes, ends the process.
  unfoldable pub start_profile :
      Answers (CoreConfig Address) → Option Bytes → ℕ → Process → Outcome ProfileError (ℕ × Process)
  start_profile core pointer size p =
      let started = start_json (with_loader core) pointer size p in
      if is_some p.engine.instance_id || p.engine.state == state_running
      then ok started
      else elim (copy_config pointer size) [
        | none ↦ ok started
        | some config ↦ unless_panic (load lib json (some (got config ∷ []))) started
      ]

  start_profile-start_json :
      (core : Answers (CoreConfig Address)) (pointer : Option Bytes) (size : ℕ) (p : Process)
      (r : ℕ × Process)
      → start_profile core pointer size p ≡ ok r
      → r ≡ start_json (with_loader core) pointer size p
  unfolding start_profile
  start_profile-start_json core pointer size p r e =
      elim (Option-cases (copy_config pointer size)) [
        | inl none_copied ↦ ground arith
        | inr (config, copied) ↦ ground (
          arith,
          unless_panic-ok (load lib json (some (got config ∷ [])))
              (start_json (with_loader core) pointer size p) r,
        )
      ]

  start_profile-loaded :
      (core : Answers (CoreConfig Address)) (pointer : Option Bytes) (size : ℕ) (p : Process)
      (config : Bytes) (k : CoreConfig Address)
      → copy_config pointer size ≡ some config
      → load lib json (some (got config ∷ [])) ≡ ok k
      → start_profile core pointer size p ≡ ok (start_json (with_loader core) pointer size p)
  unfolding start_profile
  start_profile-loaded core pointer size p config k copied loaded = ground (arith, copied, loaded)

  start_json-IsAccepted :
      (env : Env) (core : Answers (CoreConfig Address)) (memory : Bytes) (size : ℕ) (p : Process)
      → IsIdle env p
      → size ≤ length memory
      → ((start_json (with_loader core) (some memory) size p).0 ≡ status_ok) ↔ (
          (0 < size)
          × (size ≤ max_config_bytes)
          × (c : Config) × (k : CoreConfig Address) × IsWhole json (take size memory) c
          × IsAccepted lib c k
          × (core.creates k ≡ true)
          × (core.starts ≡ true))
  start_json-IsAccepted env core memory size p idle enough = (
    λ h.
        let (bytes, k, copied, loaded, creates, starts) =
          (start_json-ok_iff env (with_loader core) (some memory) size p idle).0 h in
        let (some_given, not_over, same) = (copy_config-some_iff memory size bytes).0 copied in
        let is_loaded = (loaded_of-some (load lib json (some (got bytes ∷ []))) k).0 loaded in
        let (c, whole, accepted) =
          (load-copy_config lib json memory size bytes (got bytes ∷ []) k enough copied tt
              (append-nil bytes)).0
            is_loaded in
        (
          some_given,
          not_over,
          c,
          k,
          subst (λ s. IsWhole json s c) same whole,
          accepted,
          creates,
          starts,
        ),
    λ (some_given, not_over, c, k, whole, accepted, creates, starts).
        let bytes = take size memory in
        let copied = (copy_config-some_iff memory size bytes).1 (some_given, not_over, refl) in
        let is_loaded =
          (load-copy_config lib json memory size bytes (got bytes ∷ []) k enough copied tt
              (append-nil bytes)).1
            (c, whole, accepted) in
        (start_json-ok_iff env (with_loader core) (some memory) size p idle).1 (
          bytes,
          k,
          copied,
          (loaded_of-some (load lib json (some (got bytes ∷ []))) k).1 is_loaded,
          creates,
          starts,
        ),
  )

  -- On an idle engine FoloXrayStartJSON succeeds, without a panic of the loader, exactly for 1 byte to
  -- 4 MiB that are one JSON value for the decoder and nothing after it, where the value is one of the
  -- three profiles and Xray-core can create and start an instance of the configuration that is made of
  -- it.
  pub start_json-IsAccepted_iff :
      (env : Env) (core : Answers (CoreConfig Address)) (memory : Bytes) (size : ℕ) (p : Process)
      → IsIdle env p
      → size ≤ length memory
      → ((q : Process) × (start_profile core (some memory) size p ≡ ok (status_ok, q))) ↔ (
          (0 < size)
          × (size ≤ max_config_bytes)
          × (c : Config) × (k : CoreConfig Address) × IsWhole json (take size memory) c
          × IsAccepted lib c k
          × (core.creates k ≡ true)
          × (core.starts ≡ true))
  start_json-IsAccepted_iff env core memory size p idle enough =
      let started = start_json (with_loader core) (some memory) size p in
      let accepts = start_json-IsAccepted env core memory size p idle enough in
      (
        λ (q, e). accepts.0 (
            sym (
              ap (λ r. r.0) (start_profile-start_json core (some memory) size p (status_ok, q) e))),
        λ right.
            let succeeds = accepts.1 right in
            let (bytes, k, copied, loaded, creates, starts) =
              (start_json-ok_iff env (with_loader core) (some memory) size p idle).0 succeeds in
            let is_loaded = (loaded_of-some (load lib json (some (got bytes ∷ []))) k).0 loaded in
            (
              started.1,
              start_profile-loaded core (some memory) size p bytes k copied is_loaded
                  ∙ ap (λ code. ok (code, started.1)) succeeds,
            ),
      )
