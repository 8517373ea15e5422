-- ===== src/Limiter/Tests.antt =====
-- Runs of the limiter over a concrete rate library, and its theorems at concrete data.
use center_agent.Prelude.{
  false, ◌⊎◌, ℕ, ◌≤◌, ◌≡◌, ◌↔◌, refl, true, none, some, List, [], ◌∷◌, nat_eq, list_eq,
  if◌then◌else◌, contains,
}
use center_agent.Prelude.Ints.{ℤ, pos}
use center_agent.Prelude.Maps.{Map, load, store, delete}
use center_agent.Prelude.Text.{Text, codes}
use center_agent.Api.{UserInfo, OnlineUser, online_eq}
use center_agent.Limiter.{
  InboundInfo, Devices, add_inbound_limiter, get_user_bucket, get_online_device,
  update_inbound_limiter, limits_of, user_key, is_online,
}
use center_agent.Limiter.Rate.{determine_rate, determine_rate_min}
use center_agent.Limiter.Libraries.{RateLib, IsRateLib, CacheReply, not_found}
use center_agent.Limiter.Online.{get_online_device_lem}
use center_agent.Limiter.Refusal.{IsFull, get_user_bucket-reject}
use center_agent.Limiter.Runs.{Event, added, connected, reported, run, AllWithin, run-AllWithin}
use center_agent.Limiter.Buckets.{Turned, IsUnnamed, update_inbound_limiter_lem}

abbrev pub plain_rate : RateLib
plain_rate = record {
  Limit = ℕ;
  Bucket = ℕ × ℤ;
  to_limit = λ n. n;
  new_limiter = λ l b. (l, b);
  set_limit = λ k l. (l, k.1);
  set_burst = λ k b. (k.0, b);
  limit_of = λ k. k.0;
  burst_of = λ k. k.1;
}

plain_rate-IsRateLib : IsRateLib plain_rate
plain_rate-IsRateLib = record {
  limit-new = λ l b. refl;
  burst-new = λ l b. refl;
  limit-set_limit = λ k l. refl;
  burst-set_limit = λ k l. refl;
  limit-set_burst = λ k b. refl;
  burst-set_burst = λ k b. refl;
}

abbrev ann : UserInfo
ann = record {
  uid = pos 7;
  email = codes "a@x";
  uuid = codes "u";
  passwd = codes "p";
  port = 443;
  alter_id = 0;
  method = [];
  speed_limit = 500;
  device_limit = pos 1;
}

abbrev bob : UserInfo
bob = record ann { uid = pos 8; email = codes "b@x"; speed_limit = 0 }

abbrev pub node : Text
node = codes "in"

abbrev pub ann_key : Text
ann_key = codes "in|a@x|7"

key_of_ann : user_key node ann.email ann.uid ≡ ann_key
unfolding user_key
key_of_ann = refl

abbrev pub no_cache : Text → CacheReply
no_cache _ = not_found

-- Ann's device limit is 1: her second address is refused, her first one is let in again.
abbrev started : Map Text (InboundInfo plain_rate)
started = add_inbound_limiter plain_rate node 300 (ann ∷ bob ∷ []) none []

second : Map Text (InboundInfo plain_rate)
second = (get_user_bucket plain_rate node ann_key (codes "1.1.1.1") no_cache started).0

refused_run :
    ((get_user_bucket plain_rate node ann_key (codes "2.2.2.2") no_cache second).1.reject ≡ true)
    × ((get_user_bucket plain_rate node ann_key (codes "1.1.1.1") no_cache second).1.bucket
        ≡ some (300, pos 300))
unfolding second get_user_bucket add_inbound_limiter load store delete determine_rate user_key
refused_run = (refl, refl)

determine_rate_min_example :
    ((determine_rate 300 500 ≡ 0) ↔ ((◌≡◌ {A = ℕ} 300 0) × (◌≡◌ {A = ℕ} 500 0)))
    × ((◌≡◌ {A = ℕ} 300 0) ⊎ (determine_rate 300 500 ≤ 300))
    × ((◌≡◌ {A = ℕ} 500 0) ⊎ (determine_rate 300 500 ≤ 500))
    × ((determine_rate 300 500 ≡ 300) ⊎ (determine_rate 300 500 ≡ 500))
determine_rate_min_example = determine_rate_min 300 500

abbrev events : List Event
events =
    added node 300 (ann ∷ bob ∷ []) none
    ∷ connected node ann_key (codes "1.1.1.1") no_cache
    ∷ connected node ann_key (codes "2.2.2.2") no_cache
    ∷ reported node
    ∷ connected node ann_key (codes "2.2.2.2") no_cache
    ∷ []

run-AllWithin_example : AllWithin plain_rate (run plain_rate events [])
run-AllWithin_example = run-AllWithin plain_rate events

abbrev pub busy : InboundInfo plain_rate
busy = record {
  tag = node;
  node_speed_limit = 300;
  users = (ann_key, limits_of ann) ∷ [];
  bucket_hub = (ann_key, (300, pos 300)) ∷ [];
  online = (ann_key, (codes "1.1.1.1", pos 7) ∷ []) ∷ [];
  global = none;
}

abbrev pub hub : Map Text (InboundInfo plain_rate)
hub = (node, busy) ∷ []

pub hub-busy : load node hub ≡ some busy
unfolding load
hub-busy = refl

get_user_bucket-reject_example :
    (((get_user_bucket plain_rate node ann_key (codes "2.2.2.2") no_cache hub).1.reject ≡ true)
      ↔ IsFull busy ann_key (codes "2.2.2.2"))
    × (((get_user_bucket plain_rate node ann_key (codes "2.2.2.2") no_cache hub).1.reject ≡ false)
        ⊎ ((get_user_bucket plain_rate node ann_key (codes "2.2.2.2") no_cache hub).0 ≡ hub))
get_user_bucket-reject_example =
    get_user_bucket-reject node ann_key (codes "2.2.2.2") no_cache hub busy hub-busy refl

get_online_device_lem_example :
    (report : List OnlineUser) × (l' : Map Text (InboundInfo plain_rate)) × (after : InboundInfo
      plain_rate)
    × (get_online_device plain_rate node hub ≡ some (report, l'))
    × (load node l' ≡ some after)
    × ((email : Text) (ips : Devices) (ip : Text) (uid : ℤ)
        → load email busy.online ≡ some ips
        → load ip ips ≡ some uid
        → contains report (record { uid = uid; ip = ip }) ≡ true)
    × ((email : Text) → load email after.online ≡ none)
    × ((email : Text)
        → load email after.bucket_hub
          ≡ (if is_online busy.online email then load email busy.bucket_hub else none))
get_online_device_lem_example = get_online_device_lem node hub busy hub-busy

abbrev slow_ann : UserInfo
slow_ann = record ann { speed_limit = 100 }

update_inbound_limiter_lem_example :
    let key = user_key node slow_ann.email slow_ann.uid in
    let rate = determine_rate 300 100 in
    (l' : Map Text (InboundInfo plain_rate)) × (after : InboundInfo plain_rate)
    × (update_inbound_limiter plain_rate node (slow_ann ∷ []) hub ≡ some l')
    × (load node l' ≡ some after)
    × (load key after.users ≡ some (limits_of slow_ann))
    × Turned plain_rate rate (load key busy.bucket_hub) (load key after.bucket_hub)
    × ((e : Text)
        → IsUnnamed node e (slow_ann ∷ [])
        → (load e after.users ≡ load e busy.users)
          × (load e after.bucket_hub ≡ load e busy.bucket_hub))
update_inbound_limiter_lem_example =
    update_inbound_limiter_lem plain_rate-IsRateLib node [] [] slow_ann hub busy hub-busy tt tt
