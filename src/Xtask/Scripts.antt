-- ===== src/Xtask/Scripts.antt =====
-- The shell scripts of vm.rs, as they are written there.
use bouclier_bleu.Base.{[], ◌∷◌, Line, lit}

abbrev pub inject_cmd : Line
inject_cmd =
    lit "\n"
    ∷ lit "        find tests -mindepth 2 -type f -name \"*.rs\" | while read -r f; do\n"
    ∷ lit "            name=$(basename \"$f\" .rs)\n"
    ∷ lit "            [ \"$name\" = \"main\" ] && continue\n"
    ∷ lit
        "            printf \"\\n[[test]]\\nname = \\\"%s\\\"\\npath = \\\"../%s\\\"\\n\" \"$name\" \"$f\" >> core/Cargo.toml\n"
    ∷ lit "        done\n"
    ∷ lit "    "
    ∷ []

abbrev pub enable_lsm_script : Line
enable_lsm_script =
    lit "\n"
    ∷ lit "    export PATH=\"$PATH:/usr/sbin:/sbin\"\n"
    ∷ lit "\n"
    ∷ lit "    if command -v grubby >/dev/null 2>&1; then\n"
    ∷ lit "        # Fedora / RHEL Family\n"
    ∷ lit "        grubby --update-kernel=ALL --args=\"lsm=bpf\"\n"
    ∷ lit "    elif command -v update-grub >/dev/null 2>&1; then\n"
    ∷ lit "        # Ubuntu / Debian Family\n"
    ∷ lit "        mkdir -p /etc/default/grub.d\n"
    ∷ lit
        "        echo 'GRUB_CMDLINE_LINUX_DEFAULT=\"${GRUB_CMDLINE_LINUX_DEFAULT} lsm=bpf\"' > /etc/default/grub.d/99-bpf-lsm.cfg\n"
    ∷ lit "        update-grub\n"
    ∷ lit "    elif command -v grub-mkconfig >/dev/null 2>&1; then\n"
    ∷ lit "        # Arch Linux / Generic GRUB\n"
    ∷ lit "        if grep -q \"^GRUB_CMDLINE_LINUX_DEFAULT=\" /etc/default/grub; then\n"
    ∷ lit
        "            sed -i 's/^GRUB_CMDLINE_LINUX_DEFAULT=\"/GRUB_CMDLINE_LINUX_DEFAULT=\"lsm=bpf /' /etc/default/grub\n"
    ∷ lit "        else\n"
    ∷ lit "            echo 'GRUB_CMDLINE_LINUX_DEFAULT=\"lsm=bpf\"' >> /etc/default/grub\n"
    ∷ lit "        fi\n"
    ∷ lit "        grub-mkconfig -o /boot/grub/grub.cfg\n"
    ∷ lit "    elif [ -d \"/boot/loader/entries\" ]; then\n"
    ∷ lit "        # Systemd-boot fallback (used by some Arch cloud images)\n"
    ∷ lit "        for conf in /boot/loader/entries/*.conf; do\n"
    ∷ lit "            if grep -q \"^options\" \"$conf\"; then\n"
    ∷ lit "                sed -i 's/^options.*/& lsm=bpf/' \"$conf\"\n"
    ∷ lit "            fi\n"
    ∷ lit "        done\n"
    ∷ lit "    else\n"
    ∷ lit
        "        echo \"Error: No recognized bootloader management tool found. Cannot configure LSM.\" >&2\n"
    ∷ lit "        exit 1\n"
    ∷ lit "    fi\n"
    ∷ []

abbrev pub mask_services : Line
mask_services =
    lit
      "systemctl mask systemd-networkd-wait-online.service NetworkManager-wait-online.service cloud-init.service cloud-config.service cloud-final.service cloud-init-local.service"
    ∷ []

abbrev pub extract_workspace : Line
extract_workspace = lit "mkdir -p /workspace && tar -xzf /root/src-bundle.tar.gz -C /workspace" ∷ []

abbrev pub install_config : Line
install_config =
    lit "mkdir -p /etc/bouclier-bleu && "
    ∷ lit "cp /workspace/config.toml /etc/bouclier-bleu/config.toml && "
    ∷ lit "chown root:root /etc/bouclier-bleu/config.toml && "
    ∷ lit "chmod 600 /etc/bouclier-bleu/config.toml"
    ∷ []
