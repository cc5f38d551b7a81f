-- ===== src/Packet/Total.antt =====
-- The readers of the packets' properties end on any data.
use mqtt.Wire.Total.{IsTotal}
use mqtt.Property.{Property}
use mqtt.Properties.Fields.Total.{Ends, ending, deserialize_struct-IsTotal}
use mqtt.Properties.Fields.Struct.{deserialize_struct}
use mqtt.Packet.Publish.Properties as PublishProperties
use mqtt.Packet.Reason
use mqtt.Packet.Shared
use mqtt.Packet.Will
use mqtt.Packet.Connect.Properties as ConnectProperties
use mqtt.Packet.Connack.Properties as ConnackProperties
use mqtt.Packet.Subscribe
use mqtt.Packet.Unsubscribe
use mqtt.Packet.Disconnect

publish_property-Ends :
    (p : PublishProperties.PublishProperties) (prop : Property)
    → Ends (PublishProperties.read_property p prop)
unfolding PublishProperties.read_property
publish_property-Ends p prop = search ending depth 16

pub publish_properties-IsTotal : IsTotal PublishProperties.deserialize
unfolding PublishProperties.deserialize deserialize_struct
publish_properties-IsTotal =
    deserialize_struct-IsTotal PublishProperties.read_property publish_property-Ends
      PublishProperties.dflt

reason_property-Ends :
    (p : Reason.ReasonProperties) (prop : Property) → Ends (Reason.read_property p prop)
unfolding Reason.read_property
reason_property-Ends p prop = search ending depth 16

pub reason-IsTotal : IsTotal Reason.deserialize
unfolding Reason.deserialize
reason-IsTotal = deserialize_struct-IsTotal Reason.read_property reason_property-Ends Reason.dflt

will_property-Ends : (p : Will.WillProperties) (prop : Property) → Ends (Will.read_property p prop)
unfolding Will.read_property
will_property-Ends p prop = search ending depth 16

pub will-IsTotal : IsTotal Will.deserialize
unfolding Will.deserialize
will-IsTotal = deserialize_struct-IsTotal Will.read_property will_property-Ends Will.dflt

shared_property-Ends :
    (p : Shared.SharedProperties) (prop : Property) → Ends (Shared.handle_property p prop)
unfolding Shared.handle_property
shared_property-Ends p prop = search ending depth 16

connect_property-Ends :
    (p : ConnectProperties.ConnectProperties) (prop : Property)
    → Ends (ConnectProperties.read_property p prop)
unfolding ConnectProperties.read_property
connect_property-Ends p prop = search (ending, shared_property-Ends) depth 16

pub connect_properties-IsTotal : IsTotal ConnectProperties.deserialize
unfolding ConnectProperties.deserialize
connect_properties-IsTotal =
    deserialize_struct-IsTotal ConnectProperties.read_property connect_property-Ends
      ConnectProperties.dflt

connack_property-Ends :
    (p : ConnackProperties.ConnackProperties) (prop : Property)
    → Ends (ConnackProperties.read_property p prop)
unfolding ConnackProperties.read_property
connack_property-Ends p prop = search (ending, shared_property-Ends) depth 16

pub connack_properties-IsTotal : IsTotal ConnackProperties.deserialize
unfolding ConnackProperties.deserialize
connack_properties-IsTotal =
    deserialize_struct-IsTotal ConnackProperties.read_property connack_property-Ends
      ConnackProperties.dflt

subscribe_property-Ends :
    (p : Subscribe.SubscribeProperties) (prop : Property) → Ends (Subscribe.read_property p prop)
unfolding Subscribe.read_property
subscribe_property-Ends p prop = search ending depth 16

pub subscribe_properties-IsTotal : IsTotal Subscribe.deserialize_properties
unfolding Subscribe.deserialize_properties
subscribe_properties-IsTotal =
    deserialize_struct-IsTotal Subscribe.read_property subscribe_property-Ends Subscribe.dflt

pub unsubscribe_properties-IsTotal : IsTotal Unsubscribe.deserialize_properties
unfolding Unsubscribe.deserialize_properties Unsubscribe.read_property
unsubscribe_properties-IsTotal =
    deserialize_struct-IsTotal Unsubscribe.read_property (λ p prop. search ending depth 16) _

disconnect_property-Ends :
    (p : Disconnect.DisconnectProperties) (prop : Property) → Ends (Disconnect.read_property p prop)
unfolding Disconnect.read_property
disconnect_property-Ends p prop = search ending depth 16

pub disconnect_properties-IsTotal : IsTotal Disconnect.deserialize_properties
unfolding Disconnect.deserialize_properties
disconnect_properties-IsTotal =
    deserialize_struct-IsTotal Disconnect.read_property disconnect_property-Ends Disconnect.dflt
