-- ===== src/Postgres/TokenLife.antt =====
-- The life of an agent token: stored, accepted, revoked, refused.
use hermes_manager.Prelude.{
  String, ◌≡◌, Bool, true, false, arith, ok, ap, lookup, insert, adjust, lookup-insert,
  lookup-adjust, eq_refl, ◌==◌,
}
use hermes_manager.World.{World, Db, AgentToken}
use hermes_manager.Postgres.{store_agent_token, verify_agent_token, revoke_agent_token, accepts}
use hermes_manager.Postgres.Calls.{
  store_agent_token-eq-ok, verify_agent_token-eq-ok, revoke_agent_token-eq-ok,
}

-- A revoked row, or none, is accepted with no hash.
pub accepts-adjust_revoked :
    (id presented : String) (db : Db)
    → accepts
        (lookup id (adjust id (λ (row : AgentToken). record row { revoked = true }) db.tokens))
        presented
      ≡ false
unfolding accepts
accepts-adjust_revoked id presented db = ground (
  arith,
  lookup-adjust id id (λ (row : AgentToken). record row { revoked = true }) db.tokens,
  eq_refl id,
)

pub accepts-insert :
    (id hash presented : String) (db : Db)
    → accepts
        (lookup id (insert id (record { token_hash = hash; revoked = false }) db.tokens))
        presented
      ≡ (hash == presented)
unfolding accepts
accepts-insert id hash presented db = ground (
  arith,
  lookup-insert id id (record { token_hash = hash; revoked = false }) db.tokens,
  eq_refl id,
)

-- Over any network: once a token's hash is stored, a verification that returns without an error
-- says whether the presented hash is that hash; once it is revoked, it says no to every hash.
pub token_life :
    (id hash presented : String) (valid still : Bool) (w w₁ w₂ w₃ w₄ : World)
    → store_agent_token id hash w ≡ (ok tt, w₁)
    → verify_agent_token id presented w₁ ≡ (ok valid, w₂)
    → revoke_agent_token id w₂ ≡ (ok tt, w₃)
    → verify_agent_token id presented w₃ ≡ (ok still, w₄)
    → (valid ≡ (hash == presented)) × (still ≡ false)
token_life id hash presented valid still w w₁ w₂ w₃ w₄ stored verified revoked again =
    let (tokens₁, _) = store_agent_token-eq-ok w w₁ id hash stored in
    let (answer, _, _) = verify_agent_token-eq-ok w₁ w₂ id presented valid verified in
    let (tokens₃, _) = revoke_agent_token-eq-ok w₂ w₃ id revoked in
    let (answer', _, _) = verify_agent_token-eq-ok w₃ w₄ id presented still again in
    (
      cc (
        answer,
        ap (λ (d : Db). accepts (lookup id d.tokens) presented) tokens₁,
        accepts-insert id hash presented w.db,
      ),
      cc (
        answer',
        ap (λ (d : Db). accepts (lookup id d.tokens) presented) tokens₃,
        accepts-adjust_revoked id presented w₂.db,
      ),
    )
