-- ===== src/Identity.antt =====
-- The loop over the blocks of an identification packet: `Slave::set_master_id` of src/slave.cpp and
-- `Master::set_slave_id` of src/master.cpp are the same code on another member.
use libhdcp.Base.{◌≡◌, refl, List, [], ◌∷◌, ◌==◌, if◌then◌else◌}
use libhdcp.Packet.Format.{BlockView}
use libhdcp.Packet.Make.{
  Identification, name_type, serial_number_type, hw_version_type, sw_version_type, id_blocks,
}

abbrev pub no_identification : Identification
no_identification = record { name = []; serial_number = []; hw_version = []; sw_version = [] }

-- The `switch` on the type of a block; the default case only logs.
unfoldable pub set_field : Identification → BlockView → Identification
set_field i b =
    if b.type == name_type
    then record i { name = b.content }
    else if b.type == serial_number_type
    then record i { serial_number = b.content }
    else if b.type == hw_version_type
    then record i { hw_version = b.content }
    else if b.type == sw_version_type
    then record i { sw_version = b.content }
    else i

unfoldable pub set_fields : Identification → List BlockView → Identification
unfolding set_field
set_fields i [] = i
set_fields i (b ∷ bs) = set_fields (set_field i b) bs

-- The blocks of an identification packet set every field, whatever was there before.
pub set_fields-id_blocks : (old i : Identification) → set_fields old (id_blocks i) ≡ i
unfolding set_fields
set_fields-id_blocks old i = refl
