-- ===== src/Config/Families.antt =====
-- src/net/forwarder.cpp: `Impl::EffectiveListenFamily` and `Impl::EffectiveTargetFamily`.
use port_forward_x.Prelude.{◌≡◌, not, ◌&&◌, arith, if◌then◌else◌}
use port_forward_x.Config.{ForwardConfig, AddressFamilyPreference, auto, is_auto}

unfoldable pub effective_listen_family : ForwardConfig → AddressFamilyPreference
effective_listen_family config =
    if not (is_auto config.listen_family)
    then config.listen_family
    else if is_auto config.target_family && not (is_auto config.family)
    then config.family
    else auto

unfoldable pub effective_target_family : ForwardConfig → AddressFamilyPreference
effective_target_family config =
    if not (is_auto config.target_family)
    then config.target_family
    else if is_auto config.listen_family && not (is_auto config.family)
    then config.family
    else auto

-- If neither side names a family, both sides use the general one; otherwise each side uses its own
-- and the general one has no influence.
pub effective_families :
    (config : ForwardConfig)
    → (effective_listen_family config ≡ (
        if is_auto config.listen_family && is_auto config.target_family
        then config.family
        else config.listen_family))
      × (effective_target_family config ≡ (
          if is_auto config.listen_family && is_auto config.target_family
          then config.family
          else config.target_family))
unfolding effective_listen_family effective_target_family
effective_families config = ground arith
