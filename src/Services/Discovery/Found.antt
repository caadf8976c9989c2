-- ===== src/Services/Discovery/Found.antt =====
-- racelink/services/discovery_service.py: how many devices a search reports.
use gatecontrol_lora.Services.Unicast.{replies_of}
use gatecontrol_lora.Services.Status.{add_text}
use gatecontrol_lora.Prelude.{
  Bool-cases, List, Option, Text, [], arith, inl, inr, length, length-append, none, refl, some, suc,
  ℤ, ◌+◌, ◌==◌, ◌∷◌, ◌≡◌, ◌≤◌, ◌⊎◌,
}
use gatecontrol_lora.Protocol.Codec.{ReplyEvent}
use gatecontrol_lora.Services.Collect.{Arrival, send_and_collect}
use gatecontrol_lora.Services.Discovery.{
  discover_in_groups, Assigned, DiscoveryResult, add_responders, discover_devices, discover_pred,
  discover_window, group_to_assign, is_group_filter, later_group, merge_found, responder_of,
  union_texts,
}

length-add_text : (t : Text) (ts : List Text) → length (add_text t ts) ≤ suc (length ts)
unfolding add_text
length-add_text t ts = ground (arith, length-append ts (t ∷ []))

length-add_responders :
    (evs : List ReplyEvent) (found : List Text)
    → length (add_responders evs found) ≤ length evs + length found
unfolding add_responders
length-add_responders [] found = omega arith
length-add_responders (ev ∷ evs) found = elim (Bool-cases (length (responder_of ev) == 0)) [
  | inl e ↦ rw e (omega (arith, length-add_responders evs found))
  | inr e ↦ rw e (
      omega (
        arith,
        length-add_responders evs (add_text (responder_of ev) found),
        length-add_text (responder_of ev) found,
      ))
]

length-union_texts :
    (ts merged : List Text) → length (union_texts ts merged) ≤ length ts + length merged
unfolding union_texts
length-union_texts [] merged = omega arith
length-union_texts (t ∷ ts) merged =
    omega (arith, length-union_texts ts (add_text t merged), length-add_text t merged)

-- Each device reported has sent a reply, and the group given is the one asked for, from 1 to 254.
pub record Reported (add_to_group : ℤ) (r : DiscoveryResult) : Type 0 where
  pub by_reply : length r.responders ≤ r.found
  pub group_asked : (r.assigned_group ≡ none) ⊎ (r.assigned_group ≡ group_to_assign add_to_group)

discover_devices-Reported :
    (add_to_group : ℤ) (arrivals : List Arrival) (st : Assigned)
    → Reported add_to_group (discover_devices add_to_group arrivals st).0
unfolding discover_devices
discover_devices-Reported g arrivals st =
    let evs = (replies_of (send_and_collect discover_window discover_pred arrivals)).0 in
    record { by_reply = omega (arith, length-add_responders evs []); group_asked = inr refl }

merge_found-Reported :
    (g : ℤ) (total r : DiscoveryResult)
    → Reported g total
    → Reported g r
    → Reported g (merge_found total r)
unfolding merge_found
merge_found-Reported g total r h k = record {
  by_reply =
      omega (arith, length-union_texts r.responders total.responders, h.by_reply, k.by_reply);
  group_asked = later total.assigned_group r.assigned_group h.group_asked k.group_asked;
}
  where
    later :
        (old new : Option ℤ)
        → (old ≡ none) ⊎ (old ≡ group_to_assign g)
        → (new ≡ none) ⊎ (new ≡ group_to_assign g)
        → (later_group old new ≡ none) ⊎ (later_group old new ≡ group_to_assign g)
    later old none a b = a
    later old (some n) a b = b

-- A search over any list of group filters, with any replies to each, reports no more devices than
-- it has counted replies, and assigns no other group than the one it was asked for.
pub discover_in_groups-Reported :
    (g : ℤ) (searches : List (Option ℤ × List Arrival)) (total : DiscoveryResult) (st : Assigned)
    → Reported g total
    → Reported g (discover_in_groups g searches total st).0
unfolding discover_in_groups
discover_in_groups-Reported g [] total st h = h
discover_in_groups-Reported g ((gid, arrivals) ∷ rest) total st h =
    elim (Bool-cases (is_group_filter gid)) [
      | inl e ↦
          rw (discover_in_groups, e)
            (discover_in_groups-Reported g rest
              (merge_found total (discover_devices g arrivals st).0)
              (discover_devices g arrivals st).1
              (merge_found-Reported g total (discover_devices g arrivals st).0 h
                (discover_devices-Reported g arrivals st)))
      | inr e ↦ rw (discover_in_groups, e) (discover_in_groups-Reported g rest total st h)
    ]
