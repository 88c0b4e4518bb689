-- ===== src/Vochain/Transaction/Unmarshal.antt =====
-- vochain/transaction.go: UnmarshalTx, after encoding/json has read the fields. The signed bytes
-- are the encoding of the transaction without its signature.
use go_dvote.Prelude.Fallible.{◌>>=◌, ◌>>◌, reject_if}
use go_dvote.Vochain.Deps.{Json}
use go_dvote.Prelude.{
  Bytes, Res, or_error, cannot_extract_type, cannot_parse_tx, not, [], is_set, cannot_marshal, ok,
  if◌then◌else◌, bytes_eq, codes, err, invalid_tx_type,
}
use go_dvote.Types.{GenericTx, vote_tx, new_process_tx, admin_tx, cancel_process_tx, validate_type}
use go_dvote.Util.Hex.{trim_hex}

module _ (J : Json) where
  unfoldable pub unmarshal_vote : Bytes → Res GenericTx
  unmarshal_vote content = do
    tx ← or_error (J.unmarshal_vote_tx content) cannot_parse_tx
    signed ← or_error (J.marshal_vote_tx (record tx { signature = []; type = [] })) cannot_marshal
    ok (
        vote_tx (record tx {
          signed_bytes = signed;
          nullifier = trim_hex tx.nullifier;
          process_id = trim_hex tx.process_id;
        }))

  unfoldable pub unmarshal_admin : Bytes → Res GenericTx
  unmarshal_admin content = do
    tx ← or_error (J.unmarshal_admin_tx content) cannot_parse_tx
    signed ← or_error (J.marshal_admin_tx (record tx { signature = [] })) cannot_marshal
    ok (
        admin_tx (record tx {
          signed_bytes = signed;
          encryption_private_key = trim_hex tx.encryption_private_key;
          process_id = trim_hex tx.process_id;
          encryption_public_key = trim_hex tx.encryption_public_key;
          reveal_key = trim_hex tx.reveal_key;
          commitment_key = trim_hex tx.commitment_key;
        }))

  unfoldable pub unmarshal_new_process : Bytes → Res GenericTx
  unmarshal_new_process content = do
    tx ← or_error (J.unmarshal_new_process_tx content) cannot_parse_tx
    signed ← or_error (J.marshal_new_process_tx (record tx { signature = [] })) cannot_marshal
    ok (
        new_process_tx (record tx {
          signed_bytes = signed;
          entity_id = trim_hex tx.entity_id;
          process_id = trim_hex tx.process_id;
          mk_root = trim_hex tx.mk_root;
        }))

  unfoldable pub unmarshal_cancel_process : Bytes → Res GenericTx
  unmarshal_cancel_process content = do
    tx ← or_error (J.unmarshal_cancel_process_tx content) cannot_parse_tx
    signed ← or_error (J.marshal_cancel_process_tx (record tx { signature = [] })) cannot_marshal
    ok (
        cancel_process_tx
          (record tx { signed_bytes = signed; process_id = trim_hex tx.process_id }))

  -- UnmarshalTx
  unfoldable pub unmarshal_tx : Bytes → Res GenericTx
  unmarshal_tx content = do
    name ← or_error (J.unmarshal_tx content) cannot_extract_type
    reject_if (not (is_set name)) cannot_extract_type
    if bytes_eq (validate_type name) (codes "VoteTx")
        then unmarshal_vote content
        else if bytes_eq (validate_type name) (codes "AdminTx")
        then unmarshal_admin content
        else if bytes_eq (validate_type name) (codes "NewProcessTx")
        then unmarshal_new_process content
        else if bytes_eq (validate_type name) (codes "CancelProcessTx")
        then unmarshal_cancel_process content
        else err invalid_tx_type
