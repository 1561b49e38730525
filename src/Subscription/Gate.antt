-- ===== src/Subscription/Gate.antt =====
-- What a webhook, an update and the gate do to the access of an account.
use obrasignal.Base.{
  ◌≡◌, refl, ℕ, ◌<◌, String, true, none, some, arith, inl, inr, Bool-cases, find?, ◌&&◌, ◌∙◌,
}
use obrasignal.Base.Text.{◌==◌, eq_refl, eq_iff, member}
use obrasignal.FactoryCloud.Stamp.{at}
use obrasignal.FactoryCloud.StateStore.Laws.{find?-update}
use obrasignal.Evaluation.{Account, find_account, modify, paid}
use obrasignal.Evaluation.Grants.{mark_evaluation_paid, mark_post_conversion_churn, can_pay}
use obrasignal.Evaluation
use obrasignal.Evaluation.Extension.{find_account-modify}
use obrasignal.Subscription.{
  Subscriber, Registry, Update, accounts, update_subscription, updated, is_subscriber,
  ensure_account, pays, after_update, no_metadata, with_plan,
}
use obrasignal.Subscription.Requests.{
  Event, subscription_state, billing_webhook, event_id, billing_guard, is_protected, is_subscribed,
}

-- After a signed event, a signed event of the same id, later and whatever else it holds, is answered
-- with 200 and changes nothing.
pub billing_webhook_idempotent :
    (upper lower : String → String) (digest digest' : String) (e e' : Event) (now later : ℕ)
    (reg : Registry)
    → event_id digest' e' ≡ event_id digest e
    → billing_webhook upper lower true digest' e' later
        (billing_webhook upper lower true digest e now reg).1
      ≡ (200, (billing_webhook upper lower true digest e now reg).1)
unfolding billing_webhook
billing_webhook_idempotent upper lower digest digest' e e' now later reg same =
    elim (Bool-cases (member (event_id digest e) reg.webhook_events)) [
      | inl seen ↦ ground (arith, same)
      | inr new ↦ ground (arith, same, eq_refl (event_id digest e))
    ]

paid-plan :
    (account_id metadata : String) (now : ℕ) (s : Evaluation.Store) (a : Account)
    → find_account account_id s.accounts ≡ some a
    → (a' : Account) × (find_account account_id
          (mark_evaluation_paid account_id metadata now s).accounts
        ≡ some a')
      × (a'.plan ≡ a.plan)
unfolding mark_evaluation_paid
paid-plan account_id metadata now s a found = elim (Bool-cases (can_pay a.evaluation_status)) [
  | inl e ↦ (
    record a { evaluation_status = some paid },
    ground (
      arith,
      find_account-modify account_id (λ b. record b { evaluation_status = some paid }) s.accounts a
          found refl,
    ),
    refl,
  )
  | inr e ↦ (a, ground arith, refl)
]

churn-plan :
    (account_id metadata : String) (now : ℕ) (s : Evaluation.Store)
    → (mark_post_conversion_churn account_id metadata now s).accounts ≡ s.accounts
unfolding mark_post_conversion_churn
churn-plan account_id metadata now s = ground arith

after_update-plan :
    (u : Update) (account_id : String) (now : ℕ) (s : Evaluation.Store) (a : Account)
    → find_account account_id s.accounts ≡ some a
    → (a' : Account) × (find_account account_id (after_update u account_id now s).accounts
        ≡ some a')
      × (a'.plan ≡ a.plan)
after_update-plan u account_id now s a found =
    elim (Bool-cases (u.plan == "pro" && pays u.subscription_status)) [
      | inl e ↦
          let (a', f, p) = paid-plan account_id no_metadata now s a found in
          (a', ground (arith, e, f), p)
      | inr e ↦ (a, ground (arith, e, churn-plan account_id no_metadata now s), refl)
    ]

-- The two parts of a row, after an update.
update_subscription-parts :
    (account_id : String) (u : Update) (now : ℕ) (reg : Registry) {a : Account} {b : Subscriber}
    → find_account account_id (accounts reg) ≡ some a
    → find? (is_subscriber account_id) reg.subscribers ≡ some b
    → (a' : Account) × (find_account account_id
          (accounts (update_subscription account_id u now reg))
        ≡ some a')
      × (a'.plan ≡ u.plan)
      × (find? (is_subscriber account_id) (update_subscription account_id u now reg).subscribers
          ≡ some (updated u now b))
unfolding update_subscription
update_subscription-parts account_id u now reg {a} {b} fa fb =
    let planned = find_account-modify account_id (with_plan u.plan) (accounts reg) a fa refl in
    let (a', f, p) =
      after_update-plan u account_id now
        (record reg.evaluation { accounts = modify account_id (with_plan u.plan) (accounts reg) })
        (with_plan u.plan a) planned in
    (
      a',
      f,
      p,
      find?-update (is_subscriber account_id) (updated u now) (λ c. refl) reg.subscribers {x = b}
          fb,
    )

paid_access :
    (a : Account) (b : Subscriber) (t now : ℕ)
    → a.plan ≡ "pro"
    → is_subscribed b.subscription_status ≡ true
    → b.entitlement_expires_at ≡ some (at t)
    → now < t
    → (subscription_state (some (a, b)) now).active ≡ true
unfolding subscription_state
paid_access a b t now pro sub ends early = ground (arith, eq_iff a.plan "pro")

billing_guard-active :
    (path account_id : String) (now : ℕ) (reg : Registry) {a : Account} {b : Subscriber}
    → find_account account_id (accounts reg) ≡ some a
    → find? (is_subscriber account_id) reg.subscribers ≡ some b
    → (subscription_state (some (a, b)) now).active ≡ true
    → billing_guard path (some account_id) now reg ≡ (none, reg)
unfolding billing_guard ensure_account
billing_guard-active path account_id now reg {a} {b} fa fb active =
    elim (Bool-cases (is_protected path)) [
      | inr e ↦ ground arith
      | inl e ↦ ground (arith, fa, fb, active)
    ]

-- Once the subscription of a known account is set to the plan "pro", with a status that counts and an
-- end, the gate lets the account through on every path before that end, and leaves the registry.
pub update_subscription-access :
    (account_id path : String) (u : Update) (now later t : ℕ) (reg : Registry) {a : Account}
    {b : Subscriber}
    → find_account account_id (accounts reg) ≡ some a
    → find? (is_subscriber account_id) reg.subscribers ≡ some b
    → u.plan ≡ "pro"
    → is_subscribed u.subscription_status ≡ true
    → u.entitlement_expires_at ≡ some (at t)
    → later < t
    → billing_guard path (some account_id) later (update_subscription account_id u now reg)
      ≡ (none, update_subscription account_id u now reg)
update_subscription-access account_id path u now later t reg {a} {b} fa fb pro sub ends early =
    let (a', f, p, g) = update_subscription-parts account_id u now reg fa fb in
    billing_guard-active path account_id later (update_subscription account_id u now reg) f g
      (paid_access a' (updated u now b) t later (p ∙ pro) sub (ground arith) early)
