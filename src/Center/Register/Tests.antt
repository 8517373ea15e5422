-- ===== src/Center/Register/Tests.antt =====
-- A registration with a concrete token, and the theorem at concrete data.
use center_agent.Prelude.{◌≡◌, inl, inr, refl, false, none, [], ◌∷◌, nat_eq, list_eq}
use center_agent.Prelude.Ints.{pos, int_eq}
use center_agent.Prelude.Maps.{load}
use center_agent.Prelude.Text.{Text, codes}
use center_agent.Center.Register.{
  Registry, Registration, already_used, expired, register_agent, run, register_agent-once,
}

abbrev plain_sum : Text → Text
plain_sum t = b'#' ∷ t

abbrev registry : Registry
registry = record {
  tokens =
      (codes "#tok", record { node = pos 4; used_at = none; expires_at = 100; revoked = false })
      ∷ [];
  agents =
      (
        pos 4,
        record {
          hmac_key = [];
          hostname = codes "old";
          public_ip = [];
          agent_version = [];
          agent_os = [];
          agent_arch = [];
          last_seen_at = 0;
        },
      )
      ∷ [];
}

abbrev newcomer : Registration
newcomer = record {
  token = codes "tok";
  hostname = [];
  os = codes "linux";
  arch = codes "arm64";
  agent_version = codes "1";
  public_ip = [];
}

accepted_newcomer :
    (register_agent plain_sum newcomer (codes "k") 100 registry).1 ≡ inr (pos 4, codes "k")
unfolding register_agent load
accepted_newcomer = refl

late_newcomer : (register_agent plain_sum newcomer (codes "k") 101 registry).1 ≡ inl expired
unfolding register_agent load
late_newcomer = refl

register_agent-once_example :
    let s' =
      run plain_sum
        ((newcomer, codes "x", 60) ∷ [])
        (register_agent plain_sum newcomer (codes "k") 50 registry).0 in
    register_agent plain_sum newcomer (codes "l") 70 s' ≡ (s', inl already_used)
unfolding register_agent load
register_agent-once_example =
    register_agent-once plain_sum newcomer newcomer (codes "k") (codes "l") 50 70
      ((newcomer, codes "x", 60) ∷ []) registry (pos 4) (codes "k") refl refl
