-- ===== src/Limiter/Online.antt =====
-- GetOnlineDevice: what it reports, and what it resets.
use center_agent.Prelude.{
  ◌≡◌, refl, inl, inr, true, none, some, List, [], ◌∷◌, arith, ◌==◌, ==_refl, nat_eq, list_eq,
  if◌then◌else◌, contains, contains-append, Bool-cases, Option-cases,
}
use center_agent.Prelude.Ints.{ℤ, int_eq}
use center_agent.Prelude.Maps.{Map, keys, load, delete, load-delete, load-store_self, load-restrict}
use center_agent.Prelude.Text.{Text}
use center_agent.Api.{OnlineUser, online_eq}
use center_agent.Limiter.{
  InboundInfo, Devices, device_report, online_report, delete_all, is_online, report_inbound,
  get_online_device,
}
use center_agent.Limiter.Libraries.{RateLib}

load-delete_all :
    (ks : List Text) (m : Map Text Devices) (e : Text)
    → load e (delete_all ks m) ≡ (if contains ks e then none else load e m)
unfolding delete_all
load-delete_all [] m e = refl
load-delete_all (k ∷ ks) m e = ground (arith, load-delete_all ks (delete k m) e, load-delete k e m)

contains-keys :
    (m : Map Text Devices) (e : Text) (ips : Devices)
    → load e m ≡ some ips
    → contains (keys m) e ≡ true
unfolding load
contains-keys [] e ips h = ground arith
contains-keys ((k, w) ∷ m) e ips h = ground (arith, contains-keys m e ips)

pub load-cleared : (m : Map Text Devices) (e : Text) → load e (delete_all (keys m) m) ≡ none
load-cleared m e = elim (Option-cases (load e m)) [
  | inl absent ↦ ground (arith, load-delete_all (keys m) m e)
  | inr (ips, present) ↦ ground (arith, load-delete_all (keys m) m e, contains-keys m e ips present)
]

contains-device_report :
    (ips : Devices) (ip : Text) (uid : ℤ)
    → load ip ips ≡ some uid
    → contains (device_report ips) (record { uid = uid; ip = ip }) ≡ true
unfolding load device_report
contains-device_report [] ip uid h = ground arith
contains-device_report ((j, v) ∷ ips) ip uid h =
    ground (arith, contains-device_report ips ip uid, ==_refl uid)

contains-online_report :
    (m : Map Text Devices) (email : Text) (ips : Devices) (ip : Text) (uid : ℤ)
    → load email m ≡ some ips
    → load ip ips ≡ some uid
    → contains (online_report m) (record { uid = uid; ip = ip }) ≡ true
unfolding load online_report
contains-online_report [] email ips ip uid h q = ground arith
contains-online_report ((e, d) ∷ m) email ips ip uid h q =
    let user : OnlineUser = record { uid = uid; ip = ip } in
    elim (Bool-cases (email == e)) [
      | inl here ↦ ground (
        arith,
        contains-append (device_report d) (online_report m) user,
        contains-device_report d ip uid,
      )
      | inr there ↦ ground (
        arith,
        contains-append (device_report d) (online_report m) user,
        contains-online_report m email ips ip uid,
      )
    ]

module _ {R : RateLib} where
  -- A report of a known inbound lists every device that is online, leaves nobody online, and keeps
  -- the speed bucket of exactly the users that were online.
  pub get_online_device_lem :
      (tag : Text) (l : Map Text (InboundInfo R)) (info : InboundInfo R)
      → load tag l ≡ some info
      → (report : List OnlineUser) × (l' : Map Text (InboundInfo R)) × (after : InboundInfo R)
        × (get_online_device R tag l ≡ some (report, l'))
        × (load tag l' ≡ some after)
        × ((email : Text) (ips : Devices) (ip : Text) (uid : ℤ)
            → load email info.online ≡ some ips
            → load ip ips ≡ some uid
            → contains report (record { uid = uid; ip = ip }) ≡ true)
        × ((email : Text) → load email after.online ≡ none)
        × ((email : Text)
            → load email after.bucket_hub
              ≡ (if is_online info.online email then load email info.bucket_hub else none))
  unfolding get_online_device report_inbound
  get_online_device_lem tag l info h = (
    online_report info.online,
    _,
    report_inbound R info,
    ground arith,
    load-store_self tag (report_inbound R info) l,
    contains-online_report info.online,
    load-cleared info.online,
    λ email. load-restrict (is_online info.online) email info.bucket_hub,
  )
