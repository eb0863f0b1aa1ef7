-- ===== src/Store/Purges.antt =====
-- internal/store/jobs.go: rows that are deleted when their time has passed.
use gh_stories.Prelude.{
  ℕ, ◌+◌, Bool, false, ◌&&◌, Option, none, some, List, count_rows, delete_rows, exists_row, leb,
  ltb, ◌==◌,
}
use gh_stories.Store.Interact.{Inbox, View, Reply, Event}
use gh_stories.Store.Logins.{OAuthFlow, PendingLogin, DeviceLogin}

abbrev is_spent : ℕ → Reply → Bool
is_spent clock r = leb r.purge_after clock

abbrev names : Option ℕ → Reply → Bool
names none r = false
names (some id) r = r.id == id

-- `PurgeReplies`; the events of a reply go with it.
unfoldable pub purge_replies : Inbox → ℕ → ℕ × Inbox
purge_replies s clock = (
  count_rows (is_spent clock) s.replies,
  record s {
    replies = delete_rows (is_spent clock) s.replies;
    events =
        delete_rows
          (λ (e : Event). exists_row (λ r. is_spent clock r && names e.reply_id r) s.replies)
          s.events;
  },
)

-- `delivered_at <= now - retention`
abbrev is_old : ℕ → ℕ → View → Bool
is_old clock retention v = leb (v.delivered_at + retention) clock

-- `PurgeViews`
unfoldable pub purge_views : Inbox → ℕ → ℕ → ℕ × Inbox
purge_views s clock retention = (
  count_rows (is_old clock retention) s.views,
  record s { views = delete_rows (is_old clock retention) s.views },
)

abbrev hour : ℕ
hour = 3_600_000_000_000

-- The tables of logins that are under way.
pub record Pending : Type 0 where
  pub flows : List OAuthFlow
  pub logins : List PendingLogin
  pub devices : List DeviceLogin

-- `PurgeExpiredAuth`
unfoldable pub purge_expired_auth : Pending → ℕ → Pending
purge_expired_auth t clock = record {
  flows = delete_rows (λ (f : OAuthFlow). ltb (f.expires_at + hour) clock) t.flows;
  logins = delete_rows (λ (l : PendingLogin). ltb (l.expires_at + hour) clock) t.logins;
  devices = delete_rows (λ (d : DeviceLogin). ltb (d.expires_at + hour) clock) t.devices;
}
