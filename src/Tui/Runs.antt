-- ===== src/Tui/Runs.antt =====
-- Runs of the dashboard: a live apply is confirmed on the suggestion that it sends.
use kubectl_hpa_status.Prelude.{
  ℕ, List, true, false, Option, none, some, ℤ, ◌≡◌, inl, inr, subst, ◌∙◌, Bool-cases,
}
use kubectl_hpa_status.Tui.State
use kubectl_hpa_status.Tui.State.{
  Bytes, ListItem, StatusReport, ViewMode, list_view, detail_view, help_view, metrics_view,
  fix_view, overview_view, SortField, FixState, Model, FetchResult, Key, Message, Cmd, no_cmd,
}
use kubectl_hpa_status.Tui.Update.{update}
use kubectl_hpa_status.Tui.Invariant.{IsValid, IsSafe}
use kubectl_hpa_status.Tui.Armed.{ArmedFrom, ArmedStep, SameTarget}
use kubectl_hpa_status.Tui.Confirmed.{update-ArmedStep}
use kubectl_hpa_status.Tui.Valid.{update-IsSafe}
use kubectl_hpa_status.Tui.Invariant.{IsValid}
use kubectl_hpa_status.Tui.Approved.{Targets, AllowsStep, update-Allows}

module _ {E : Type 0} (sort_stable : (ListItem → ListItem → ℤ) → List ListItem → List ListItem)
    (sort_keys : List Bytes → List Bytes) (health_ok : Bytes) (type_key : Key → Bytes → Bytes) where
  abbrev pub step : Message E → Model E → Option (Model E × Cmd)
  step = update sort_stable sort_keys health_ok type_key

  -- One state comes after another, by messages.
  pub data Reaches (m : Model E) : Model E → Type 0 where
    here : Reaches m m
    after :
        {n p : Model E} {cmd : Cmd}
        → Reaches m n
        → (msg : Message E) → step msg n ≡ some (p, cmd)
        → Reaches m p

  -- On the way there was a state with the wizard unarmed on the same target, and the message after
  -- it was the Enter key.
  abbrev pub ConfirmedOn : Model E → Model E → FixState E → Type 0
  ConfirmedOn start m t =
      (p q : Model E) × (cmd : Cmd) × (s : FixState E) × Reaches start p
      × (p.fix_state ≡ some s)
      × (s.apply_confirm ≡ false)
      × SameTarget s t
      × (step (Message.key Key.enter_key) p ≡ some (q, cmd))
      × Reaches q m

  SameTarget-trans : (s t u : FixState E) → SameTarget s t → SameTarget t u → SameTarget s u
  SameTarget-trans s t u (a, b, c, d, e) (f, g, h, i, j) = (a ∙ f, b ∙ g, c ∙ h, d ∙ i, e ∙ j)

  -- The wizard of a run that starts with none is armed only after a confirmation on its target.
  pub armed-ConfirmedOn :
      (start m : Model E)
      → start.fix_state ≡ none
      → Reaches start m
      → (t : FixState E) → m.fix_state ≡ some t
      → t.apply_confirm ≡ true
      → ConfirmedOn start m t
  armed-ConfirmedOn start _ none_open here t e armed = cc
  armed-ConfirmedOn start m none_open (after {n = n} {cmd = cmd} run msg moved) t e armed =
      from
        (subst (ArmedFrom msg n.fix_state) e (
          subst (ArmedStep msg n) moved
            (update-ArmedStep sort_stable sort_keys health_ok type_key msg n)))
        (λ s k a. armed-ConfirmedOn start n none_open run s k a)
    where
      extend : (s : FixState E) → SameTarget s t → ConfirmedOn start n s → ConfirmedOn start m t
      extend s same (p, q, c, s0, before, was, off, same0, press, rest) = (
        p,
        q,
        c,
        s0,
        before,
        was,
        off,
        SameTarget-trans s0 s t same0 same,
        press,
        after rest msg moved,
      )

      from :
          ArmedFrom msg n.fix_state (some t)
          → ((s : FixState E)
              → n.fix_state ≡ some s
              → s.apply_confirm ≡ true
              → ConfirmedOn start n s)
          → ConfirmedOn start m t
      from (inl off) ih = cc
      from (inr (s, k, same, inl a)) ih = extend s same (ih s k a)
      from (inr (s, k, same, inr enter)) ih = elim (Bool-cases s.apply_confirm) [
        | inl a ↦ extend s same (ih s k a)
        | inr off ↦ (
          n,
          m,
          cmd,
          s,
          run,
          k,
          off,
          same,
          subst (λ x. step x n ≡ some (m, cmd)) enter moved,
          here,
        )
      ]

  -- A run from a valid state with no wizard open can always go on, and stays valid.
  Reaches-IsValid :
      (start m : Model E) → IsValid sort_keys start → Reaches start m → IsValid sort_keys m
  Reaches-IsValid start _ h here = h
  Reaches-IsValid start m h (after {n = n} run msg moved) =
      subst (IsSafe sort_keys) moved (
        update-IsSafe sort_stable sort_keys health_ok type_key msg n
          (Reaches-IsValid start n h run))

  -- In a run from a valid state with no wizard open, a message leads to a live apply only if the
  -- wizard is open on the object and has the suggestion selected that are sent, and on the way it was
  -- open, not armed, on the same object and suggestion when the Enter key was pressed.
  pub live_apply-ConfirmedOn :
      (start m n : Model E) (msg : Message E) (epoch : ℕ) (namespace name : Bytes)
      (suggestion : State.Suggestion)
      → IsValid sort_keys start
      → start.fix_state ≡ none
      → Reaches start m
      → step msg m ≡ some (n, State.apply_fix_cmd epoch namespace name suggestion)
      → (t : FixState E) × Targets sort_keys m t epoch namespace name suggestion
        × ConfirmedOn start m t
  live_apply-ConfirmedOn start m n msg epoch namespace name suggestion h none_open run sent =
      let (t, f, v, can, armed, targets) = subst (AllowsStep sort_keys m) sent (
        update-Allows sort_keys sort_stable health_ok type_key msg m
          (Reaches-IsValid start m h run).2) in
      (t, targets, armed-ConfirmedOn start m none_open run t targets.0 armed)
