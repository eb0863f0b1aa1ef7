-- ===== src/Store/Replays.antt =====
-- internal/store/idempotency.go: the stored responses of completed mutations.
--
-- A response body is a value of the type `B`; a request is known by its hash, which is the SHA-256
-- sum of its JSON.
use gh_stories.Prelude.{
  ℕ, Bool, ◌&&◌, Option, none, some, List, [], ◌∷◌, ◌==◌, if◌then◌else◌, find_row, exists_row,
  same_text,
}

-- A row of `idempotency_keys`.
pub record Stored (B : Type 0) : Type 0 where
  pub user_id : ℕ
  pub scope : List ℕ
  pub key : List ℕ
  pub request_hash : ℕ
  pub status_code : ℕ
  pub response_body : B

-- The results `found`, `status`, `body` and `conflict` of `IdempotentReplay`.
pub data Replay (B : Type 0) : Type 0 where
  fresh conflict : Replay B
  found : ℕ → B → Replay B

module _ {B : Type 0} where
  abbrev pub is_stored : ℕ → List ℕ → List ℕ → Stored B → Bool
  is_stored user scope key r = r.user_id == user && same_text r.scope scope && same_text r.key key

  abbrev pub replay_of : ℕ → Option (Stored B) → Replay B
  replay_of hash none = fresh
  replay_of hash (some r) =
      if r.request_hash == hash then found r.status_code r.response_body else conflict

  -- `IdempotentReplay`
  unfoldable pub idempotent_replay : List (Stored B) → ℕ → List ℕ → List ℕ → ℕ → Replay B
  idempotent_replay rows user scope [] hash = fresh
  idempotent_replay rows user scope (c ∷ key) hash =
      replay_of hash (find_row (is_stored user scope (c ∷ key)) rows)

  -- `RememberIdempotent`
  unfoldable pub remember_idempotent :
      List (Stored B) → ℕ → List ℕ → List ℕ → ℕ → ℕ → B → List (Stored B)
  remember_idempotent rows user scope [] hash status body = rows
  remember_idempotent rows user scope (c ∷ key) hash status body =
      if exists_row (is_stored user scope (c ∷ key)) rows
      then rows
      else record {
        user_id = user;
        scope = scope;
        key = c ∷ key;
        request_hash = hash;
        status_code = status;
        response_body = body;
      }
        ∷ rows
