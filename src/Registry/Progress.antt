-- ===== src/Registry/Progress.antt =====
-- Cancelling a submission in accelerator/adapters/control-plane-submission-registry.js.
use surgical_dev_ops.Base.Text.{includes}
use surgical_dev_ops.Base.Outcome.{
  ok, then-ok, then-eq, bind-eq, require-true, reject-false, chains,
}
use surgical_dev_ops.Base.{
  ◌≡◌, ◌∙◌, refl, sym, subst, ℕ, suc, ◌≤◌, String, Bool, true, false, [], ◌&&◌, if◌then◌else◌,
  ==_refl, Option, some, none, arith, str_eq, some-injective,
}
use surgical_dev_ops.Json.{Value, number, text, get}
use surgical_dev_ops.Protocol.{exact_fields}
use surgical_dev_ops.Protocol.Credentials.{
  is_credential_free, free_fields, is_credential_field, carries_credential,
}
use surgical_dev_ops.Protocol.Copy.{deep_freeze_copy}
use surgical_dev_ops.Registry.{Entry, Registry, store}
use surgical_dev_ops.Registry.Observe.{
  get_entry, observe, require_bound, check_observation, observed_entry, is_terminal_value, terminal,
  progress, falls_back, observe_fields,
}
use surgical_dev_ops.Service.{observe_input}
use surgical_dev_ops.Service.Answers.{free-assert}
use surgical_dev_ops.Service.Observed.{assert-free}

-- No classification ranks above the terminal ones.
ranked :
    (a b c : Bool) (n : ℕ)
    → (if a then some 1 else if b then some 2 else if c then some 3 else none) ≡ some n
    → n ≤ 3
ranked true b c n h = subst (λ k. k ≤ 3) (some-injective h) (omega arith)
ranked false true c n h = subst (λ k. k ≤ 3) (some-injective h) (omega arith)
ranked false false true n h = subst (λ k. k ≤ 3) (some-injective h) (omega arith)
ranked false false false n h = cc

cancelled-rank : progress (text "cancelled") ≡ some 3
unfolding progress
cancelled-rank = refl

progress-bound : (v : Value) (n : ℕ) → progress v ≡ some n → n ≤ 3
unfolding progress
progress-bound (text s) n h =
    ranked (str_eq s "accepted") (str_eq s "running") (includes terminal s) n h
progress-bound _ n h = cc

-- So a cancellation is never a step back.
cancelled-forward : (o : Option ℕ) → ((n : ℕ) → o ≡ some n → n ≤ 3) → falls_back o (some 3) ≡ false
unfolding falls_back
cancelled-forward none h = refl
cancelled-forward (some n) h = ground (arith, h n refl)

cancellable :
    (d : Entry) (q : Value)
    → get q "afterObservationSequence" ≡ number d.observation_sequence
    → is_terminal_value d.current_observation_state ≡ false
    → check_observation d q (text "cancelled") ≡ ok tt
unfolding check_observation
cancellable d q seen running =
    then-eq _ (require-true _ _ refl)
    ∙ then-eq _ (require-true _ _ (rw seen (==_refl d.observation_sequence)))
    ∙ then-eq _ (reject-false _ _ (rw running refl))
    ∙ reject-false _ _ (
        subst (λ o. falls_back (progress d.current_observation_state) o ≡ false)
          (sym cancelled-rank)
          (cancelled-forward (progress d.current_observation_state)
            (progress-bound d.current_observation_state)))

input-fields :
    (q : Value) (code : String) (t : Value)
    → exact_fields (observe_input q (text "cancelled") code t) observe_fields [] ≡ ok tt
unfolding exact_fields chains
input-fields q code t = refl

three : (a b c : Bool) → a ≡ true → b ≡ true → c ≡ true → (a && (b && (c && true))) ≡ true
three a b c h k l = ground arith

cancellation-free :
    (q : Value) (code : String) (t : Value)
    → is_credential_free q ≡ true
    → is_credential_free (text code) ≡ true
    → is_credential_free t ≡ true
    → is_credential_free (observe_input q (text "cancelled") code t) ≡ true
unfolding is_credential_free free_fields is_credential_field carries_credential
cancellation-free q code t h k l =
    three (is_credential_free q) (is_credential_free (text code)) (is_credential_free t) h k l

get_entry-parts :
    (r : Registry) (q : Value) (d : Entry)
    → get_entry r q ≡ ok d
    → (is_credential_free q ≡ true) × (require_bound r q ≡ ok d)
unfolding get_entry
get_entry-parts r q d h = then-ok _ _ h λ free h. (assert-free q free, h)

-- If a request reads a record that is in no terminal
-- classification, and has seen the record's present sequence, then the registry takes an observation
-- of that request as cancelled: the record that it writes is cancelled and has the next sequence. The
-- code and the time that come with the observation must carry no credential.
pub observe-cancelled :
    (r : Registry) (q : Value) (d : Entry) (code : String) (t : Value)
    → get_entry r q ≡ ok d
    → get q "afterObservationSequence" ≡ number d.observation_sequence
    → is_terminal_value d.current_observation_state ≡ false
    → is_credential_free (text code) ≡ true
    → is_credential_free t ≡ true
    → (e : Entry) × (observe r (observe_input q (text "cancelled") code t) ≡ ok (store r e, e))
      × (e.current_observation_state ≡ text "cancelled")
      × (e.observation_sequence ≡ suc d.observation_sequence)
unfolding observe observed_entry deep_freeze_copy
observe-cancelled r q d code t read seen running free_code free_time =
    let parts = get_entry-parts r q d read in
    let input = observe_input q (text "cancelled") code t in
    (
      observed_entry r.made d (text "cancelled") (text code) t,
      then-eq _ (input-fields q code t)
          ∙ then-eq _ (free-assert input (cancellation-free q code t parts.0 free_code free_time))
          ∙ bind-eq _ parts.1
          ∙ then-eq _ (cancellable d q seen running),
      refl,
      refl,
    )
