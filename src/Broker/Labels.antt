-- ===== src/Broker/Labels.antt =====
-- The labels of destinations in monitoring records.
use busd.Prelude.{◌++◌}
use busd.Protocol.Display.{peer_label}
use busd.Protocol.Types.{Text, Destination, ClientSelection}
use busd.Protocol.Bytes.{ascii}

-- `{selection:?}`
abbrev pub selection_label : ClientSelection → Text
selection_label ClientSelection.first = ascii "First"
selection_label ClientSelection.any_of = ascii "Any"
selection_label ClientSelection.all_of = ascii "All"

unfoldable pub destination_label : Destination → Text
unfolding peer_label
destination_label Destination.broker = ascii "broker"
destination_label (Destination.peer peer) = peer_label peer
destination_label (Destination.namespace namespace) = namespace
destination_label (Destination.channel channel) = channel
destination_label Destination.broadcast = ascii "broadcast"
destination_label (Destination.client_id client_id selection) =
    client_id ++ (ascii ":" ++ selection_label selection)
