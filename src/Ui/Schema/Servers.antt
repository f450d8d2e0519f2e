-- ===== src/Ui/Schema/Servers.antt =====
-- wifi_shepard_ui/settings_schema.py: the fields of FIELDS for controllers, home_assistant, dns_sources.
use wifi_shepard.Load.Yaml.{null, bool, text}
use wifi_shepard.Prelude.{true, false, none, some, List, [], ◌∷◌, pos}
use wifi_shepard.Ui.Schema.Kinds.{Kind, FieldSpec}

abbrev pub controllers_fields : List FieldSpec
controllers_fields =
    record {
      path = "controllers[].type";
      label = "Controller type";
      kind = Kind.enum;
      description = "The controller brand. Only 'unifi' is supported today.";
      section = "controllers";
      default = text "unifi";
      unit = none;
      minimum = none;
      maximum = none;
      choices = some ("unifi" ∷ []);
      secret = false;
      restart_required = true;
      blank_writes_null = false;
      yaml_path = none;
    }
    ∷ record {
      path = "controllers[].name";
      label = "Name";
      kind = Kind.string;
      description = "A label for this controller — your choice.";
      section = "controllers";
      default = null;
      unit = none;
      minimum = none;
      maximum = none;
      choices = none;
      secret = false;
      restart_required = true;
      blank_writes_null = false;
      yaml_path = none;
    }
    ∷ record {
      path = "controllers[].host";
      label = "Address (IP or hostname)";
      kind = Kind.string;
      description = "The controller's address, for example 192.168.1.1.";
      section = "controllers";
      default = null;
      unit = none;
      minimum = none;
      maximum = none;
      choices = none;
      secret = false;
      restart_required = true;
      blank_writes_null = false;
      yaml_path = none;
    }
    ∷ record {
      path = "controllers[].username";
      label = "Username";
      kind = Kind.string;
      description =
          "The login username for the controller. Best practice is a dedicated limited account, not your main admin login.";
      section = "controllers";
      default = null;
      unit = none;
      minimum = none;
      maximum = none;
      choices = none;
      secret = false;
      restart_required = true;
      blank_writes_null = false;
      yaml_path = none;
    }
    ∷ record {
      path = "controllers[].password";
      label = "Password (env var name)";
      kind = Kind.secret_ref;
      description =
          "The controller password. For safety you do NOT type it here — instead name the environment variable that holds it (for example UNIFI_PASSWORD). The secret stays in your env file and is only read by the daemon.";
      section = "controllers";
      default = null;
      unit = none;
      minimum = none;
      maximum = none;
      choices = none;
      secret = true;
      restart_required = true;
      blank_writes_null = false;
      yaml_path = none;
    }
    ∷ record {
      path = "controllers[].site";
      label = "Site";
      kind = Kind.string;
      description = "The controller 'site' name. Most setups have one site called 'default'.";
      section = "controllers";
      default = text "default";
      unit = none;
      minimum = none;
      maximum = none;
      choices = none;
      secret = false;
      restart_required = true;
      blank_writes_null = false;
      yaml_path = none;
    }
    ∷ record {
      path = "controllers[].verify_ssl";
      label = "Verify HTTPS certificate";
      kind = Kind.bool;
      description =
          "Whether to strictly check the controller's HTTPS certificate. UniFi gateways ship a self-signed certificate that won't validate, so those setups usually set this to false. Turn it back on once you install a real certificate.";
      section = "controllers";
      default = bool true;
      unit = none;
      minimum = none;
      maximum = none;
      choices = none;
      secret = false;
      restart_required = true;
      blank_writes_null = false;
      yaml_path = none;
    }
    ∷ record {
      path = "controllers[].port";
      label = "API port";
      kind = Kind.int_or_null;
      description =
          "The controller's API port. Leave unset to use the default (8443 for a standalone controller). UDM-class gateways (UDM, UDM Pro, Cloud Gateway, Dream Router) use 443.";
      section = "controllers";
      default = null;
      unit = none;
      minimum = some (pos 1);
      maximum = some (pos 65535);
      choices = none;
      secret = false;
      restart_required = true;
      blank_writes_null = false;
      yaml_path = none;
    }
    ∷ []

abbrev pub home_assistant_fields : List FieldSpec
home_assistant_fields =
    record {
      path = "home_assistant.url";
      label = "Home Assistant address";
      kind = Kind.string;
      description = "Your Home Assistant address, for example http://homeassistant:8123.";
      section = "home_assistant";
      default = null;
      unit = none;
      minimum = none;
      maximum = none;
      choices = none;
      secret = false;
      restart_required = true;
      blank_writes_null = false;
      yaml_path = none;
    }
    ∷ record {
      path = "home_assistant.token";
      label = "Access token (env var name)";
      kind = Kind.secret_ref;
      description =
          "The Home Assistant long-lived access token. You do NOT type it here — name the environment variable that holds it (for example HA_TOKEN).";
      section = "home_assistant";
      default = null;
      unit = none;
      minimum = none;
      maximum = none;
      choices = none;
      secret = true;
      restart_required = true;
      blank_writes_null = false;
      yaml_path = none;
    }
    ∷ record {
      path = "home_assistant.notify_service";
      label = "Notify service";
      kind = Kind.string;
      description =
          "Which Home Assistant notify service to send to, for example 'mobile_app_pixel' for the app on your phone.";
      section = "home_assistant";
      default = null;
      unit = none;
      minimum = none;
      maximum = none;
      choices = none;
      secret = false;
      restart_required = true;
      blank_writes_null = false;
      yaml_path = none;
    }
    ∷ []

abbrev pub dns_sources_fields : List FieldSpec
dns_sources_fields =
    record {
      path = "dns_sources[].type";
      label = "Source type";
      kind = Kind.enum;
      description = "The DNS source type. Only 'pihole' (Pi-hole v6) is supported.";
      section = "dns_sources";
      default = text "pihole";
      unit = none;
      minimum = none;
      maximum = none;
      choices = some ("pihole" ∷ []);
      secret = false;
      restart_required = true;
      blank_writes_null = false;
      yaml_path = none;
    }
    ∷ record {
      path = "dns_sources[].password";
      label = "Shared password default (env var name)";
      kind = Kind.secret_ref;
      description =
          "Optional. A default admin/API password used by any Pi-hole below that doesn't set its own. You do NOT type it here — name the environment variable that holds it (for example PIHOLE_PASSWORD). Leave blank if every Pi-hole has its own password.";
      section = "dns_sources";
      default = null;
      unit = none;
      minimum = none;
      maximum = none;
      choices = none;
      secret = true;
      restart_required = true;
      blank_writes_null = false;
      yaml_path = none;
    }
    ∷ record {
      path = "dns_sources[].instances[].url";
      label = "Pi-hole address";
      kind = Kind.string;
      description =
          "One Pi-hole's address, for example http://192.168.1.186. Add one entry per Pi-hole a device might use for lookups.";
      section = "dns_sources";
      default = null;
      unit = none;
      minimum = none;
      maximum = none;
      choices = none;
      secret = false;
      restart_required = true;
      blank_writes_null = false;
      yaml_path = none;
    }
    ∷ record {
      path = "dns_sources[].instances[].password";
      label = "This Pi-hole's password (env var name)";
      kind = Kind.secret_ref;
      description =
          "This Pi-hole's own admin/API password, when it differs from the others. You do NOT type it here — name the environment variable that holds it (for example PIHOLE_GYM_PASSWORD). Leave blank to use the shared default above.";
      section = "dns_sources";
      default = null;
      unit = none;
      minimum = none;
      maximum = none;
      choices = none;
      secret = true;
      restart_required = true;
      blank_writes_null = false;
      yaml_path = none;
    }
    ∷ []
