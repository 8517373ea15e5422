-- ===== src/Panel/Sspanel/Tags.antt =====
-- The entity tags of GetNodeInfo.
use center_agent.Prelude.{
  ◌≡◌, ◌≢◌, refl, sym, ap, ◌∙◌, true, false, Option, none, some, List, [], ◌==◌, ==_iff, nat_eq,
  list_eq, Bool-cases, Option-cases, inl, inr,
}
use center_agent.Prelude.Maps.{Map, load, load-store_self}
use center_agent.Prelude.Text.{Text, codes}
use center_agent.Panel.Common.{
  FloatLib, Reply, Parsed, ok, err, panic, not_modified, note_etag, parse_response,
}
use center_agent.Panel.Sspanel.Users.{UserResponse}
use center_agent.Panel.Sspanel.Nodes.{NodeInfoResponse}
use center_agent.Panel.Sspanel.Requests.{Client, take_node, read_node, get_node_info}

note_etag-load :
    (key etag : Text) (tags : Map Text Text)
    → etag ≢ []
    → load key (note_etag key etag tags) ≡ some etag
unfolding note_etag
note_etag-load key etag tags h = elim (Option-cases (load key tags)) [
  | inl e ↦ elim (Bool-cases (etag == [])) [
    | inl p ↦ absurd (h ((==_iff etag []).0 p))
    | inr p ↦ rw (note_etag, e, p) (load-store_self key etag tags)
  ]
  | inr (t, e) ↦ elim (Bool-cases (etag == [])) [
    | inl p ↦ absurd (h ((==_iff etag []).0 p))
    | inr p ↦ elim (Bool-cases (etag == t)) [
      | inl q ↦ rw (note_etag, e, p, q) (e ∙ ap some (sym ((==_iff etag t).0 q)))
      | inr q ↦ rw (note_etag, e, p, q) (load-store_self key etag tags)
    ]
  ]
]

module _ {F : FloatLib} where
  take_node-etags :
      (c : Client F) (p : Parsed (Option (NodeInfoResponse F)))
      (users : Reply (List (UserResponse F)))
      → (take_node F c p users).0.etags ≡ c.etags
  unfolding take_node
  take_node-etags c (err e) users = refl
  take_node-etags c panic users = refl
  take_node-etags c (ok none) users = refl
  take_node-etags c (ok (some d)) users = refl

  -- The tag of an answer that is not 304 is noted, whether the answer can be parsed or not; when the
  -- panel then says that nothing has changed, the client says so, too, and has not read the node.
  pub get_node_info-unread :
      (c : Client F) (r r' : Reply (NodeInfoResponse F)) (users : Reply (List (UserResponse F)))
      → (r.status == 304) ≡ false
      → r.etag ≢ []
      → (r'.status == 304) ≡ true
      → let after = (get_node_info F c r users).0 in
        (load (codes "node") after.etags ≡ some r.etag)
        × (get_node_info F after r' users ≡ (after, err not_modified))
  unfolding get_node_info read_node
  get_node_info-unread c r r' users h k l =
      let noted = record c { etags = note_etag (codes "node") r.etag c.etags } in
      rw (get_node_info, h, l)
        (
          ap (load (codes "node")) (take_node-etags noted (parse_response 400 1 r) users)
              ∙ note_etag-load (codes "node") r.etag c.etags k,
          refl,
        )
