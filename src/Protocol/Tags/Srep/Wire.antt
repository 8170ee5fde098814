-- ===== src/Protocol/Tags/Srep/Wire.antt =====
-- SREP on the wire: what tags/srep.rs reads, on any bytes.
use roughenough.Prelude.{◌≡◌, take, arith, not, ◌==◌}
use roughenough.Protocol.Error.{index, unexpected_offsets, unexpected_tags, no_supported_versions}
use roughenough.Protocol.Cursor.{ParseCursor}
use roughenough.Protocol.Cursor.Total.{
  IsValid, Outcome, Total, IsBytes, IsU32, IsU64, Total-pure, Total-bind, Total-refuse_if,
  Total-try_get_u32_le, Total-try_get_u64_le, Total-lift_ok,
}
use roughenough.Protocol.Header.Total.{
  from_wire-Total, check_remaining-Total, Neighbours, neighbours,
}
use roughenough.Protocol.Version.Wire.{
  IsVersionList, version_from_wire-Total, versions_from_wire_n-Total, sub_assign-Total,
}
use roughenough.Protocol.Tags.{root_size}
use roughenough.Protocol.Tags.Wire.{fixed_from_wire-Total}
use roughenough.Protocol.Tags.Dele.{same_offsets, same_tags}
use roughenough.Protocol.Tags.Dele.Wire.{same_tags→eq, not-false}
use roughenough.Protocol.Header.Spec.{IsWellFormed}
use roughenough.Protocol.Tags.Srep.{
  SignedResponse, SignedResponseDraft08, srep_offsets, srep_tags, srep_from_wire, srep08_tags,
  srep08_from_wire,
}

pub record IsSrep (srep : SignedResponse) : Type 0 where
  pub radius : IsU32 srep.radius
  pub midpoint : IsU64 srep.midpoint
  pub supported : IsVersionList srep.supported_versions
  pub root : IsBytes root_size srep.merkle_root

-- Whatever the bytes are, reading SREP does not panic. The length of VERS is a difference of two offsets that
-- the header has in order.
pub srep_from_wire-Total : Total srep_from_wire IsSrep
unfolding srep_from_wire
srep_from_wire-Total = Total-bind _ _ (from_wire-Total 5) λ h wf.
    let n : Neighbours h.offsets 2 =
      neighbours 2 0 h.offsets wf.offsets_ascend (omega (arith, wf.num_offsets)) in
    Total-bind _ _ (check_remaining-Total h) λ _ _.
      Total-bind _ _ (Total-refuse_if (not (same_tags h.tags srep_tags)) unexpected_tags) λ _ _.
        Total-bind _ _
          (Total-refuse_if (not (same_offsets (take 3 h.offsets) (take 3 srep_offsets)))
            unexpected_offsets)
          λ _ _.
            Total-bind _ _ (Total-lift_ok (index h.offsets 2) n.start n.at_start)
              λ second is_second.
                Total-bind _ _ (Total-lift_ok (index h.offsets 3) n.end n.at_end) λ third is_third.
                  Total-bind _ _ (Total-refuse_if (second == third) no_supported_versions) λ _ _.
                    Total-bind _ _ version_from_wire-Total λ version _.
                      Total-bind _ _ Total-try_get_u32_le λ radius small.
                        Total-bind _ _ Total-try_get_u64_le λ midpoint small'.
                          Total-bind _ _
                            (sub_assign-Total third second
                              (omega (arith, n.in_order, is_second, is_third)))
                            λ size is.
                              Total-bind _ _
                                (versions_from_wire_n-Total size (
                                  omega (
                                    arith, is, is_second, is_third, n.in_order, n.start_aligned,
                                    n.end_aligned,
                                  )))
                                λ supported v.
                                  Total-bind _ _ (fixed_from_wire-Total root_size) λ root b.
                                    Total-pure
                                      (record {
                                        header = h;
                                        version = version;
                                        radius = radius;
                                        midpoint = midpoint;
                                        supported_versions = supported;
                                        merkle_root = root;
                                      })
                                      (record {
                                        radius = small;
                                        midpoint = small';
                                        supported = v;
                                        root = b;
                                      })

pub record IsSrepDraft08 (srep : SignedResponseDraft08) : Type 0 where
  pub headed : IsWellFormed 3 srep.header
  pub tagged : srep.header.tags ≡ srep08_tags
  pub radius : IsU32 srep.radius
  pub midpoint : IsU64 srep.midpoint
  pub root : IsBytes root_size srep.merkle_root

pub srep08_from_wire-Total : Total srep08_from_wire IsSrepDraft08
unfolding srep08_from_wire
srep08_from_wire-Total = Total-bind _ _ (from_wire-Total 3) λ h wf.
    Total-bind _ _ (check_remaining-Total h) λ _ _.
      Total-bind _ _ (Total-refuse_if (not (same_tags h.tags srep08_tags)) unexpected_tags) λ _ t.
        Total-bind _ _ Total-try_get_u32_le λ radius small.
          Total-bind _ _ Total-try_get_u64_le λ midpoint small'.
            Total-bind _ _ (fixed_from_wire-Total root_size) λ root b.
              Total-pure
                (record { header = h; radius = radius; midpoint = midpoint; merkle_root = root })
                (record {
                  headed = wf;
                  tagged =
                      same_tags→eq h.tags srep08_tags (not-false (same_tags h.tags srep08_tags) t);
                  radius = small;
                  midpoint = small';
                  root = b;
                })

-- On any cursor within a buffer of bytes, reading SREP does not panic: neither the length of VERS, a difference of
-- two offsets, nor the loop over its versions passes below 0. It gives an error, or a signed response with every
-- value of its size and the supported versions in order.
pub srep_from_wire-Outcome : (c : ParseCursor) → IsValid c → Outcome IsSrep c (srep_from_wire c)
srep_from_wire-Outcome c v = srep_from_wire-Total.at c v
