-- ===== src/Token/Rotate/Restore.antt =====
-- The Vault client's token after a rotation.
use vault_transit_unseal_ope.Base.{Bool, Option, if_cases, none, refl, some, ◌==◌, ◌||◌, ◌≡◌}
use vault_transit_unseal_ope.Base.Exec.{gets, pure, ◌>>=◌}
use vault_transit_unseal_ope.Base.Text.{trim_space}
use vault_transit_unseal_ope.Kube.{KubeError, Secret, is_not_found, text_at}
use vault_transit_unseal_ope.Token.Backoff.{get_admin_secret}
use vault_transit_unseal_ope.Token.Mint.{is_placeholder_token}
use vault_transit_unseal_ope.Token.Rotate.{with_token, on_secret, rotate_managed, rotate}
use vault_transit_unseal_ope.Token.World.{
  Codec, Env, Result, Setup, TokenManagement, Vtu, World, ask, err, ok, set_token,
}

on_secret-restores :
    (c : Setup) (answer : Result KubeError Secret) (w : World)
    → (on_secret c answer w).1.client_token ≡ w.client_token
unfolding on_secret pure with_token ◌>>=◌ gets set_token
on_secret-restores c (err e) w =
    if_cases (λ m. (m w).1.client_token ≡ w.client_token) (is_not_found e) (pure none) _ (λ _. refl)
      (λ _. refl)
on_secret-restores c (ok s) w =
    let token = trim_space (text_at s.data_of "token") in
    if_cases (λ m. (m w).1.client_token ≡ w.client_token)
      (token == "" || is_placeholder_token s token) (pure none) _ (λ _. refl) (λ _. refl)

-- Whatever the API server and Vault answer, and wherever the pass stops, the Vault client has the
-- same token after `RotateIfDue` as before: the admin token and a minted one do not leak into it.
pub rotate-restores_token :
    (env : Env) (codec : Codec) (vtu : Vtu) (b : Bool) (tm : Option TokenManagement) (w : World)
    → (rotate env codec vtu b tm w).1.client_token ≡ w.client_token
unfolding rotate rotate_managed pure ◌>>=◌ get_admin_secret ask
rotate-restores_token env codec vtu b none w = refl
rotate-restores_token env codec vtu b (some tm) w =
    let c : Setup = record { env = env; codec = codec; vtu = vtu; tm = tm; has_backup = b } in
    on_secret-restores c (get_admin_secret c w).0 (get_admin_secret c w).1
