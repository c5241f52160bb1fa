-- ===== src/Geo.antt =====
-- The resolvers under resolver/ and updateGeolocation of crawler/crawl/crawl.go: the place of an IP address.
use nodewatch_api.Base.{[], Result, ok, err, if◌then◌else◌}
use nodewatch_api.Base.Int.{ℤ, pos}
use nodewatch_api.Base.Text.{Text, codes, text_eq}
use nodewatch_api.Peer.{Peer, GeoLocation, set_geo_location}

-- The fields of the answer of github.com/ipdata/go that are read.
pub record IpData : Type 0 where
  pub asn_type : Text
  pub asn_number : Text
  pub asn_holder : Text
  pub asn_domain : Text
  pub asn_route : Text
  pub country_name : Text
  pub region : Text
  pub city_name : Text
  pub lat_of : ℤ
  pub long_of : ℤ

-- The switch on the type of an ASN. Any other type is the empty usage type.
pub usage_type_of : Text → Text
usage_type_of t =
    if text_eq t (codes "hosting")
    then codes "hosting"
    else if text_eq t (codes "isp")
    then codes "residential"
    else if text_eq t (codes "business")
    then codes "business"
    else if text_eq t (codes "edu")
    then codes "education"
    else if text_eq t (codes "gov")
    then codes "government"
    else if text_eq t (codes "mil")
    then codes "military"
    else []

-- GetGeoLocation, over the lookup.
pub get_geo_location : {E : Type 0} → (Text → Result E IpData) → Text → Result E GeoLocation
unfolding usage_type_of
get_geo_location lookup ip_addr = elim (lookup ip_addr) [
  | err e ↦ err e
  | ok data_ ↦ ok (record {
    asn = record {
      asn_id = data_.asn_number;
      asn_name = data_.asn_holder;
      domain = data_.asn_domain;
      route = data_.asn_route;
      usage_type = usage_type_of data_.asn_type;
    };
    country = data_.country_name;
    state = data_.region;
    city = data_.city_name;
    latitude = data_.lat_of;
    longitude = data_.long_of;
  })
]

-- GetGeoLocation of ipmapper, which the program uses, and of ipgeolocation: their calls of a service are
-- left out, and what they give is empty.
no_location : GeoLocation
no_location = record {
  asn = record { asn_id = []; asn_name = []; domain = []; route = []; usage_type = [] };
  country = [];
  state = [];
  city = [];
  latitude = pos 0;
  longitude = pos 0;
}

pub ipmapper_location : {E : Type 0} → Text → Result E GeoLocation
unfolding no_location
ipmapper_location ip_addr = ok no_location

pub ipgeolocation_location : {E : Type 0} → Text → Result E GeoLocation
unfolding no_location
ipgeolocation_location ip_addr = ok no_location

-- updateGeolocation, over a resolver: an error leaves the peer as it is.
pub update_geolocation : {E : Type 0} → (Text → Result E GeoLocation) → Peer → Peer
update_geolocation resolver p = elim (resolver p.ip) [ err e ↦ p | ok geo ↦ set_geo_location geo p ]
